-- ===== src/Controller/Cron/Laws.antt =====
-- What the cron managers hold after an operation, and when an operation blocks.
use forkspacer.Base.{
  ℕ, String, ◌≡◌, ◌≢◌, ◌↔◌, inl, inr, refl, ap, ◌∙◌, subst, true, false, Option, none, some, [],
  ◌∷◌, Assoc, lookup, insert, lookup-insert, ◌==◌, nat_eq, if◌then◌else◌, Bool-cases, arith, eq_iff,
  eq_refl,
}
use forkspacer.Go.{Result, ok, err}
use forkspacer.Api.Workspace.{WorkspaceAutoHibernation}
use forkspacer.Controller.Cron.{
  Scheduler, SchedulerLaws, CronManager, Outcome, blocked, done, ◌>>=◌, delete, remove_cron,
  add_cron, existing, replace, store_entry, drop_entry, handle_auto_hibernation,
}

pub lookup-delete :
    {V : Type 0} (gone read : String) (entries : Assoc V)
    → lookup read (delete gone entries) ≡ (if gone == read then none else lookup read entries)
unfolding lookup delete
lookup-delete gone read [] = ground arith
lookup-delete gone read ((name, value) ∷ rest) =
    let others = lookup-delete gone read rest in
    ground (arith, others, eq_iff name gone, eq_iff name read, eq_iff gone read)

module _ {S C : Type 0} (c : Scheduler S C) where
  differ_lem : (a b : ℕ) → nat_eq a b ≡ false → a ≢ b
  differ_lem a b h e = ground arith

  drop-entry_none :
      (uid : String) (m : CronManager C)
      → lookup uid (drop_entry c uid (lookup uid m.id_mapper) m).id_mapper ≡ none
  drop-entry_none uid m = go (lookup uid m.id_mapper) refl
    where
      go :
          (o : Option ℕ)
          → lookup uid m.id_mapper ≡ o
          → lookup uid (drop_entry c uid o m).id_mapper ≡ none
      go none e = e
      go (some id) e = lookup-delete uid uid m.id_mapper ∙ ground (arith, eq_refl uid)

  drop-entry_other :
      (uid other : String) (o : Option ℕ) (m : CronManager C)
      → uid ≢ other
      → lookup other (drop_entry c uid o m).id_mapper ≡ lookup other m.id_mapper
  drop-entry_other uid other none m n = refl
  drop-entry_other uid other (some id) m n =
      lookup-delete uid other m.id_mapper ∙ ground (arith, eq_iff uid other)

  pub remove_cron-unlocked :
      (uid : String) (m : CronManager C)
      → m.locked ≡ false
      → (m' : CronManager C) × (remove_cron c uid m ≡ done m') × (lookup uid m'.id_mapper ≡ none)
  unfolding remove_cron
  remove_cron-unlocked uid m free =
      let held : CronManager C = record m { locked = true } in
      let out : CronManager C = record (drop_entry c uid (lookup uid m.id_mapper) held) {
        locked = false;
      } in
      (out, rw free refl, drop-entry_none uid held)

  -- Removing the entry of a workspace from a manager that is not locked does not block, and leaves
  -- the manager unlocked, without an entry for the workspace, and with the entries of the others.
  pub remove_cron-removed :
      (uid other : String) (m : CronManager C)
      → m.locked ≡ false
      → uid ≢ other
      → (m' : CronManager C) × (remove_cron c uid m ≡ done m')
        × (m'.locked ≡ false)
        × (lookup uid m'.id_mapper ≡ none)
        × (lookup other m'.id_mapper ≡ lookup other m.id_mapper)
  unfolding remove_cron
  remove_cron-removed uid other m free n =
      let held : CronManager C = record m { locked = true } in
      let out : CronManager C = record (drop_entry c uid (lookup uid m.id_mapper) held) {
        locked = false;
      } in
      (
        out,
        rw free refl,
        refl,
        drop-entry_none uid held,
        drop-entry_other uid other (lookup uid m.id_mapper) held n,
      )

  -- The schedule of an entry changes: the new text parses, and it fires next at another time.
  abbrev pub Changes : String → String → ℕ → CronManager C → Type 0
  Changes schedule uid now m =
      (id : ℕ) × (lookup uid m.id_mapper ≡ some id)
      × (new : S) × (c.parse schedule ≡ ok new)
      × (c.next (c.entry id m.cron) now ≢ c.next new now)

  -- an entry is replaced under the lock that removing it wants to take
  replace-blocked_iff :
      (schedule uid : String) (now id : ℕ) (parsed : Result S) (m : CronManager C)
      → m.locked ≡ true
      → (replace c schedule uid now id parsed m ≡ blocked)
        ↔ ((new : S) × (parsed ≡ ok new) × (c.next (c.entry id m.cron) now ≢ c.next new now))
  unfolding remove_cron
  replace-blocked_iff schedule uid now id (err e) m held = ((λ h. cc), (λ h. cc (h.1)))
  replace-blocked_iff schedule uid now id (ok new) m held =
      elim (Bool-cases (nat_eq (c.next (c.entry id m.cron) now) (c.next new now))) [
        | inl same ↦ (
          (λ h. absurd (not_blocked (rw same at h))),
          (λ h. absurd (h.2 (times same ∙ ap (λ (s : S). c.next s now) (ok_injective h.1)))),
        )
        | inr differ ↦ ((λ h. (new, refl, differ_lem _ _ differ)), (λ h. rw differ (rw held refl)))
      ]
    where
      not_blocked : {A : Type 0} {a : A} → done a ≡ blocked → ⊥
      not_blocked h = cc

      times : {a b : ℕ} → nat_eq a b ≡ true → a ≡ b
      times h = ground arith

      ok_injective : {A : Type 0} {a b : A} → ok a ≡ ok b → a ≡ b
      ok_injective h = ground arith

  existing-blocked_iff :
      (schedule uid : String) (now : ℕ) (o : Option ℕ) (m : CronManager C)
      → m.locked ≡ true
      → (existing c schedule uid true now o m ≡ blocked) ↔ (
          (id : ℕ) × (o ≡ some id)
          × (new : S) × (c.parse schedule ≡ ok new)
          × (c.next (c.entry id m.cron) now ≢ c.next new now))
  existing-blocked_iff schedule uid now none m held = ((λ h. cc), (λ h. cc (h.1)))
  existing-blocked_iff schedule uid now (some id) m held =
      let r = replace-blocked_iff schedule uid now id (c.parse schedule) m held in
      (
        (λ h. let q = r.0 h in (id, refl, q.0, q.1, q.2)),
        (λ h. r.1 (
          h.2,
          h.3,
          subst (λ i. c.next (c.entry i m.cron) now ≢ c.next h.2 now) (some_injective h.1) h.4,
        )),
      )
    where
      some_injective : {a b : ℕ} → some a ≡ some b → b ≡ a
      some_injective h = ground arith

  finish-blocked_iff :
      {A B : Type 0} (o : Outcome A) (f : A → B)
      → ((o >>= λ r. done (f r)) ≡ blocked) ↔ (o ≡ blocked)
  finish-blocked_iff blocked f = ((λ _. refl), (λ _. refl))
  finish-blocked_iff (done a) f = ((λ h. cc), (λ h. cc))

  -- Adding an entry, where one may be replaced, to a manager that is not locked blocks forever
  -- exactly when the workspace has an entry whose schedule changes: the replacement locks the
  -- manager a second time.
  pub add_cron-blocked_iff :
      (schedule uid : String) (now : ℕ) (m : CronManager C)
      → m.locked ≡ false
      → (add_cron c schedule uid true now m ≡ blocked) ↔ Changes schedule uid now m
  unfolding add_cron
  add_cron-blocked_iff schedule uid now m free =
      let held : CronManager C = record m { locked = true } in
      let inner = existing-blocked_iff schedule uid now (lookup uid m.id_mapper) held refl in
      let outer =
        finish-blocked_iff (existing c schedule uid true now (lookup uid m.id_mapper) held)
          (λ (r : Result (Unit {0}) × CronManager C). (r.0, record r.1 { locked = false })) in
      ((λ h. inner.0 (outer.0 (rw free at h))), (λ h. rw free (outer.1 (inner.1 h))))

  -- Under SchedulerLaws, in a manager that is not locked, a first entry that the scheduler accepts
  -- is stored under the workspace, and adding it again, at any time, neither blocks nor changes the
  -- manager.
  pub add_cron-add_cron :
      (laws : SchedulerLaws c) (schedule uid : String) (now later id : ℕ) (s : C)
      (m : CronManager C)
      → m.locked ≡ false
      → lookup uid m.id_mapper ≡ none
      → c.add_func schedule m.cron ≡ (ok id, s)
      → (m' : CronManager C) × (add_cron c schedule uid true now m ≡ done (ok tt, m'))
        × (lookup uid m'.id_mapper ≡ some id)
        × (add_cron c schedule uid true later m' ≡ done (ok tt, m'))
  unfolding add_cron
  add_cron-add_cron laws schedule uid now later id s m free fresh added =
      let m' : CronManager C = record {
        locked = false;
        id_mapper = insert uid id m.id_mapper;
        cron = s;
      } in
      let there : lookup uid m'.id_mapper ≡ some id =
        lookup-insert uid uid id m.id_mapper ∙ ground (arith, eq_refl uid) in
      (
        m',
        rw free (rw fresh (ap (stored) added)),
        there,
        rw there (
            rw (laws.added schedule m.cron id s added)
              (rw (same (c.next (c.entry id s) later)) refl)),
      )
    where
      stored : Result ℕ × C → Outcome (Result (Unit {0}) × CronManager C)
      stored r = done (store_entry c uid r (record m { locked = true })) >>= λ x.
          done (x.0, record x.1 { locked = false })

      same : (n : ℕ) → nat_eq n n ≡ true
      same n = ground arith

  -- Once hibernation on a schedule is turned off, neither of two managers that are not locked has
  -- an entry for the workspace.
  pub handle_auto_hibernation-disabled :
      (uid : String) (now : ℕ) (a : WorkspaceAutoHibernation) (sleep resume : CronManager C)
      → sleep.locked ≡ false
      → resume.locked ≡ false
      → a.enabled ≡ false
      → (sleep' resume' : CronManager C) × (handle_auto_hibernation c uid now
            (some a)
            (sleep, resume)
          ≡ done (sleep', resume'))
        × (lookup uid sleep'.id_mapper ≡ none)
        × (lookup uid resume'.id_mapper ≡ none)
  unfolding handle_auto_hibernation remove_cron
  handle_auto_hibernation-disabled uid now a sleep resume free free' off =
      let held : CronManager C → CronManager C = λ m. record m { locked = true } in
      (
        record (drop_entry c uid (lookup uid sleep.id_mapper) (held sleep)) { locked = false },
        record (drop_entry c uid (lookup uid resume.id_mapper) (held resume)) { locked = false },
        rw off (rw free (rw free' refl)),
        drop-entry_none uid (held sleep),
        drop-entry_none uid (held resume),
      )
