-- ===== src/Controller/Cron/Table.antt =====
-- A cron manager seen as a table of schedules: runs of its operations, and the same runs on the
-- table, which is the specification.
use forkspacer.Base.{
  ℕ, ◌<◌, String, ◌≡◌, ◌≢◌, true, false, Option, none, some, List, [], ◌∷◌, lookup, ◌==◌, nat_eq,
  if◌then◌else◌,
}
use forkspacer.Go.{Error, Result, ok, err}
use forkspacer.Controller.Cron.{
  Scheduler, CronManager, Outcome, blocked, done, ◌>>=◌, remove_cron, add_cron,
}

-- addSleepCron or addResumeCron with a schedule, where an entry may be replaced, or the removal.
pub data Op : Type 0 where
  add : String → String → Op
  remove : String → Op

-- the schedule of each workspace
abbrev pub Schedules : Type 0 → Type 0
Schedules S = String → Option S

abbrev pub put : {S : Type 0} → String → Option S → Schedules S → Schedules S
put uid new f v = if uid == v then new else f v

-- robfig/cron: the entries are numbered upwards, and only adding and removing one changes it.
pub record EntryLaws {S C : Type 0} (c : Scheduler S C) : Type 0 where
  pub next_id : C → ℕ
  pub added :
      (text : String) (new : S) (s : C)
      → c.parse text ≡ ok new
      → (s' : C) × (c.add_func text s ≡ (ok (next_id s), s'))
        × (next_id s < next_id s')
        × (c.entry (next_id s) s' ≡ new)
        × ((id : ℕ) → id < next_id s → c.entry id s' ≡ c.entry id s)
  pub rejected :
      (text : String) (e : Error) (s : C)
      → c.parse text ≡ err e
      → (e' : Error) × (c.add_func text s ≡ (err e', s))
  pub removed :
      (id other : ℕ) (s : C) → other ≢ id → c.entry other (c.remove id s) ≡ c.entry other s
  pub removed_next : (id : ℕ) (s : C) → next_id (c.remove id s) ≡ next_id s

module _ {S C : Type 0} (c : Scheduler S C) where
  abbrev pub perform : ℕ → Op → CronManager C → Outcome (CronManager C)
  perform now (add text uid) m = add_cron c text uid true now m >>= λ r. done r.1
  perform now (remove uid) m = remove_cron c uid m

  -- each operation at its time
  unfoldable pub perform_all : List (ℕ × Op) → CronManager C → Outcome (CronManager C)
  perform_all [] m = done m
  perform_all ((now, op) ∷ ops) m = perform now op m >>= perform_all ops

  -- an entry is kept if the new schedule fires next when it does; otherwise the manager blocks
  abbrev pub set_schedule : ℕ → String → S → Option S → Schedules S → Outcome (Schedules S)
  set_schedule now uid new none f = done (put uid (some new) f)
  set_schedule now uid new (some old) f =
      if nat_eq (c.next old now) (c.next new now) then done f else blocked

  abbrev pub parsed : ℕ → String → Result S → Schedules S → Outcome (Schedules S)
  parsed now uid (err e) f = done f
  parsed now uid (ok new) f = set_schedule now uid new (f uid) f

  abbrev pub specify : ℕ → Op → Schedules S → Outcome (Schedules S)
  specify now (add text uid) f = parsed now uid (c.parse text) f
  specify now (remove uid) f = done (put uid none f)

  unfoldable pub specify_all : List (ℕ × Op) → Schedules S → Outcome (Schedules S)
  specify_all [] f = done f
  specify_all ((now, op) ∷ ops) f = specify now op f >>= specify_all ops

  abbrev pub schedule_at : Option ℕ → C → Option S
  schedule_at none s = none
  schedule_at (some id) s = some (c.entry id s)

  abbrev pub view : CronManager C → Schedules S
  view m uid = schedule_at (lookup uid m.id_mapper) m.cron

  module _ (laws : EntryLaws c) where
    -- No lock is held, and the entries have numbers of their own.
    abbrev pub IsGood : CronManager C → Type 0
    IsGood m =
        (m.locked ≡ false)
        × ((uid : String) (id : ℕ) → lookup uid m.id_mapper ≡ some id → id < laws.next_id m.cron)
        × ((uid v : String) (id : ℕ)
            → lookup uid m.id_mapper ≡ some id
            → lookup v m.id_mapper ≡ some id
            → uid ≡ v)

    abbrev pub Agrees : Outcome (CronManager C) → Outcome (Schedules S) → Type 0
    Agrees blocked blocked = Unit
    Agrees (done m) (done f) = IsGood m × ((uid : String) → view m uid ≡ f uid)
    Agrees _ _ = ⊥
