-- ===== src/Controller/Cron/Refinement.antt =====
-- A cron manager implements the table of schedules.
use forkspacer.Base.{
  ℕ, ◌<◌, String, ◌≡◌, ◌≢◌, ◌⊎◌, inl, inr, refl, sym, ap, ◌∙◌, true, false, Option, none, some,
  List, [], ◌∷◌, Assoc, lookup, insert, lookup-insert, ◌==◌, nat_eq, Bool-cases, arith, eq_iff,
  false≢true,
}
use forkspacer.Go.{Result, ok, err}
use forkspacer.Controller.Cron.{
  Scheduler, CronManager, Outcome, blocked, done, ◌>>=◌, remove_cron, add_cron, existing, replace,
  store_entry, drop_entry, delete, unlock,
}
use forkspacer.Controller.Cron.Laws.{lookup-delete}
use forkspacer.Controller.Cron.Table.{
  Op, add, remove, Schedules, put, EntryLaws, perform, perform_all, set_schedule, parsed, specify,
  specify_all, schedule_at, view, IsGood, Agrees,
}

absurd : {A : Type 0} → ⊥ → A
absurd impossible = elim impossible [ ]

module _ {V : Type 0} (uid v : String) (entries : Assoc V) where
  lookup-delete_gone : (uid == v) ≡ true → lookup v (delete uid entries) ≡ none
  lookup-delete_gone hit = lookup-delete uid v entries ∙ rw hit refl

  lookup-delete_kept : (uid == v) ≡ false → lookup v (delete uid entries) ≡ lookup v entries
  lookup-delete_kept other = lookup-delete uid v entries ∙ rw other refl

  lookup-insert_new : (new : V) → (uid == v) ≡ true → lookup v (insert uid new entries) ≡ some new
  lookup-insert_new new hit = lookup-insert uid v new entries ∙ rw hit refl

  lookup-insert_kept :
      (new : V) → (uid == v) ≡ false → lookup v (insert uid new entries) ≡ lookup v entries
  lookup-insert_kept new other = lookup-insert uid v new entries ∙ rw other refl

module _ {S C : Type 0} (c : Scheduler S C) (laws : EntryLaws c) where
  -- Removing an entry that is there.
  dropped :
      (uid : String) (id : ℕ) (m : CronManager C) (f : Schedules S)
      → IsGood c laws m
      → ((v : String) → view c m v ≡ f v)
      → lookup uid m.id_mapper ≡ some id
      → Agrees c laws
          (done (record {
            locked = false;
            id_mapper = delete uid m.id_mapper;
            cron = c.remove id m.cron;
          }))
          (done (put uid none f))
  dropped uid id m f good same found = (
    (
      refl,
      (λ v i h. omega (arith, laws.removed_next id m.cron, good.1 v i (kept v i h))),
      (λ v w i h k. good.2 v w i (kept v i h) (kept w i k)),
    ),
    shown,
  )
    where
      -- what is still there was there before
      kept :
          (v : String) (i : ℕ)
          → lookup v (delete uid m.id_mapper) ≡ some i
          → lookup v m.id_mapper ≡ some i
      kept v i h = elim (Bool-cases (uid == v)) [
        | inl hit ↦
            let gone : lookup v (delete uid m.id_mapper) ≡ none =
              lookup-delete_gone uid v m.id_mapper hit in
            cc
        | inr other ↦ sym (lookup-delete_kept uid v m.id_mapper other) ∙ h
      ]

      entry_kept :
          (o : Option ℕ)
          → o ≢ some id
          → schedule_at c o (c.remove id m.cron) ≡ schedule_at c o m.cron
      entry_kept none n = refl
      entry_kept (some i) n = ap some (laws.removed id i m.cron (λ e. n (ap some e)))

      shown :
          (v : String)
          → schedule_at c (lookup v (delete uid m.id_mapper)) (c.remove id m.cron)
            ≡ put uid none f v
      shown v = elim (Bool-cases (uid == v)) [
        | inl hit ↦ rw hit (
            ap (λ o. schedule_at c o (c.remove id m.cron))
              (lookup-delete_gone uid v m.id_mapper hit))
        | inr other ↦
            let differs : lookup v m.id_mapper ≢ some id =
              λ e. false≢true (sym other ∙ (eq_iff uid v).1 (good.2 uid v id found e)) in
            rw other (
              ap (λ o. schedule_at c o (c.remove id m.cron))
                (lookup-delete_kept uid v m.id_mapper other)
              ∙ entry_kept (lookup v m.id_mapper) differs
              ∙ same v)
      ]

  -- Adding an entry where there is none.
  entered :
      (text uid : String) (new : S) (m : CronManager C) (f : Schedules S)
      → IsGood c laws m
      → ((v : String) → view c m v ≡ f v)
      → c.parse text ≡ ok new
      → lookup uid m.id_mapper ≡ none
      → Agrees c laws
          (done
            (unlock c (store_entry c uid (c.add_func text m.cron) (record m { locked = true })).1))
          (done (put uid (some new) f))
  entered text uid new m f good same p absent = rw (a.1) (((refl, below, own), shown))
    where
      id : ℕ
      id = laws.next_id m.cron

      a :
          (s' : C) × (c.add_func text m.cron ≡ (ok id, s'))
          × (id < laws.next_id s')
          × (c.entry id s' ≡ new)
          × ((i : ℕ) → i < id → c.entry i s' ≡ c.entry i m.cron)
      a = laws.added text new m.cron p

      -- an entry is the new one, or was there before
      stored :
          (v : String) (i : ℕ)
          → lookup v (insert uid id m.id_mapper) ≡ some i
          → ((uid ≡ v) × (i ≡ id)) ⊎ (lookup v m.id_mapper ≡ some i)
      stored v i h = elim (Bool-cases (uid == v)) [
        | inl hit ↦
            let now : lookup v (insert uid id m.id_mapper) ≡ some id =
              lookup-insert_new uid v m.id_mapper id hit in
            let same_id : some i ≡ some id = sym h ∙ now in inl ((eq_iff uid v).0 hit, cc)
        | inr other ↦ inr (sym (lookup-insert_kept uid v m.id_mapper id other) ∙ h)
      ]

      below :
          (v : String) (i : ℕ)
          → lookup v (insert uid id m.id_mapper) ≡ some i
          → i < laws.next_id a.0
      below v i h = elim (stored v i h) [
        | inl fresh ↦ omega (arith, fresh.1, a.2)
        | inr old ↦ omega (arith, good.1 v i old, a.2)
      ]

      own :
          (v w : String) (i : ℕ)
          → lookup v (insert uid id m.id_mapper) ≡ some i
          → lookup w (insert uid id m.id_mapper) ≡ some i
          → v ≡ w
      own v w i h k = elim (stored v i h) [
        | inl fresh ↦ elim (stored w i k) [
          | inl fresh' ↦ sym fresh.0 ∙ fresh'.0
          | inr old' ↦ absurd (omega (arith, fresh.1, good.1 w i old'))
        ]
        | inr old ↦ elim (stored w i k) [
          | inl fresh' ↦ absurd (omega (arith, fresh'.1, good.1 v i old))
          | inr old' ↦ good.2 v w i old old'
        ]
      ]

      entry_kept :
          (v : String) (o : Option ℕ)
          → lookup v m.id_mapper ≡ o
          → schedule_at c o a.0 ≡ schedule_at c o m.cron
      entry_kept v none e = refl
      entry_kept v (some i) e = ap some (a.4 i (good.1 v i e))

      shown :
          (v : String)
          → schedule_at c (lookup v (insert uid id m.id_mapper)) a.0 ≡ put uid (some new) f v
      shown v = elim (Bool-cases (uid == v)) [
        | inl hit ↦ rw hit (
            ap (λ o. schedule_at c o a.0) (lookup-insert_new uid v m.id_mapper id hit)
            ∙ ap some a.3)
        | inr other ↦ rw other (
            ap (λ o. schedule_at c o a.0) (lookup-insert_kept uid v m.id_mapper id other)
            ∙ entry_kept v (lookup v m.id_mapper) refl
            ∙ same v)
      ]

  abbrev released : Result (Unit {0}) × CronManager C → Outcome (Result (Unit {0}) × CronManager C)
  released r = done (r.0, unlock c r.1)

  abbrev finish : Outcome (Result (Unit {0}) × CronManager C) → Outcome (CronManager C)
  finish o = o >>= released >>= λ r. done r.1

  -- An entry is there, and the new schedule is `new`.
  kept_or_blocked :
      (text uid : String) (now id : ℕ) (new : S) (m : CronManager C) (f : Schedules S)
      → IsGood c laws m
      → ((v : String) → view c m v ≡ f v)
      → Agrees c laws
          (finish (replace c text uid now id (ok new) (record m { locked = true })))
          (set_schedule c now uid new (some (c.entry id m.cron)) f)
  unfolding remove_cron
  kept_or_blocked text uid now id new m f good same =
      elim (Bool-cases (nat_eq (c.next (c.entry id m.cron) now) (c.next new now))) [
        | inl steady ↦ rw steady ((refl, good.1, good.2), same)
        | inr moved ↦ rw moved tt
      ]

  add-Agrees :
      (now : ℕ) (text uid : String) (m : CronManager C) (f : Schedules S)
      → IsGood c laws m
      → ((v : String) → view c m v ≡ f v)
      → (o : Option ℕ) (q : Result S) → lookup uid m.id_mapper ≡ o
      → c.parse text ≡ q
      → Agrees c laws
          (finish (existing c text uid true now o (record m { locked = true })))
          (parsed c now uid q f)
  add-Agrees now text uid m f good same none (ok new) found p =
      let nothing : f uid ≡ none = sym (same uid) ∙ ap (λ o. schedule_at c o m.cron) found in
      rw nothing (entered text uid new m f good same p found)
  add-Agrees now text uid m f good same none (err e) found p =
      rw (laws.rejected text e m.cron p).1 ((refl, good.1, good.2), same)
  add-Agrees now text uid m f good same (some id) (err e) found p =
      rw p ((refl, good.1, good.2), same)
  add-Agrees now text uid m f good same (some id) (ok new) found p =
      let there : f uid ≡ some (c.entry id m.cron) =
        sym (same uid) ∙ ap (λ o. schedule_at c o m.cron) found in
      rw p (rw there (kept_or_blocked text uid now id new m f good same))

  remove-Agrees :
      (uid : String) (m : CronManager C) (f : Schedules S)
      → IsGood c laws m
      → ((v : String) → view c m v ≡ f v)
      → (o : Option ℕ) → lookup uid m.id_mapper ≡ o
      → Agrees c laws
          (done (unlock c (drop_entry c uid o (record m { locked = true }))))
          (done (put uid none f))
  remove-Agrees uid m f good same (some id) found = dropped uid id m f good same found
  remove-Agrees uid m f good same none found = ((refl, good.1, good.2), shown)
    where
      shown : (v : String) → view c m v ≡ put uid none f v
      shown v = elim (Bool-cases (uid == v)) [
        | inl hit ↦ rw hit (rw (← (eq_iff uid v).0 hit) (ap (λ o. schedule_at c o m.cron) found))
        | inr other ↦ rw other (same v)
      ]

  perform-Agrees :
      (now : ℕ) (op : Op) (m : CronManager C) (f : Schedules S)
      → IsGood c laws m
      → ((v : String) → view c m v ≡ f v)
      → Agrees c laws (perform c now op m) (specify c now op f)
  unfolding add_cron remove_cron
  perform-Agrees now (add text uid) m f good same =
      rw good.0
        (add-Agrees now text uid m f good same (lookup uid m.id_mapper) (c.parse text) refl refl)
  perform-Agrees now (remove uid) m f good same =
      rw good.0 (remove-Agrees uid m f good same (lookup uid m.id_mapper) refl)

  then_all :
      (ops : List (ℕ × Op))
      → ((m : CronManager C) (f : Schedules S)
          → IsGood c laws m
          → ((v : String) → view c m v ≡ f v)
          → Agrees c laws (perform_all c ops m) (specify_all c ops f))
      → (o : Outcome (CronManager C)) (p : Outcome (Schedules S)) → Agrees c laws o p
      → Agrees c laws (o >>= perform_all c ops) (p >>= specify_all c ops)
  then_all ops more blocked blocked h = tt
  then_all ops more (done m) (done f) h = more m f h.0 h.1
  then_all ops more blocked (done f) h = absurd h
  then_all ops more (done m) blocked h = absurd h

  all-Agrees :
      (ops : List (ℕ × Op)) (m : CronManager C) (f : Schedules S)
      → IsGood c laws m
      → ((v : String) → view c m v ≡ f v)
      → Agrees c laws (perform_all c ops m) (specify_all c ops f)
  unfolding perform_all specify_all
  all-Agrees [] m f good same = (good, same)
  all-Agrees ((now, op) ∷ ops) m f good same =
      then_all ops (all-Agrees ops) (perform c now op m) (specify c now op f)
        (perform-Agrees now op m f good same)

  -- Under EntryLaws: a cron manager that holds no lock and whose entries have numbers of their
  -- own implements a table of schedules. Any run of additions (with replacement) and removals
  -- has on the schedules of all workspaces the effect of the same run on the table: adding sets
  -- a schedule where there is none and the text parses, keeps the old one if both fire next at
  -- the same time, and else blocks forever; removing takes it away; and neither touches the
  -- schedule of another workspace. The manager stays such that this can be said of it.
  pub perform_all-Agrees :
      (ops : List (ℕ × Op)) (m : CronManager C)
      → IsGood c laws m
      → Agrees c laws (perform_all c ops m) (specify_all c ops (view c m))
  perform_all-Agrees ops m good = all-Agrees ops m (view c m) good (λ v. refl)
