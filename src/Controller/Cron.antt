-- ===== src/Controller/Cron.antt =====
-- The cron managers of internal/controller/workspace_controller.go: addSleepCron, removeSleepCron,
-- addResumeCron, removeResumeCron and handleAutoHibernation.
-- The two managers have the same code, so one model serves both. The cron library is a parameter.
-- A `sync.RWMutex` is not reentrant: a goroutine that locks it twice is blocked forever. What the
-- jobs do when they fire is in Controller/Workspace/Job. Log lines are left out; an event is all
-- that an error leads to.
pub mod Laws
pub mod Table
pub mod Refinement
use forkspacer.Base.{
  ℕ, String, ◌≡◌, Bool, true, false, Option, none, some, List, [], ◌∷◌, Assoc, lookup, insert, ◌==◌,
  nat_eq, if◌then◌else◌,
}
use forkspacer.Go.{Error, Result, ok, err, errorf, wrap_w}
use forkspacer.Api.Workspace.{WorkspaceAutoHibernation}

-- robfig/cron: parsing, the next time after a given one, the schedule of an entry, adding and
-- removing an entry. S is the type of schedules, C that of the scheduler's state.
pub record Scheduler (S C : Type 0) : Type 0 where
  pub parse : String → Result S
  pub next : S → ℕ → ℕ
  pub entry : ℕ → C → S
  pub add_func : String → C → Result ℕ × C
  pub remove : ℕ → C → C

-- An added entry has the schedule that its text parses to.
pub record SchedulerLaws {S C : Type 0} (c : Scheduler S C) : Type 0 where
  pub added :
      (schedule : String) (s : C) (id : ℕ) (s' : C)
      → c.add_func schedule s ≡ (ok id, s')
      → c.parse schedule ≡ ok (c.entry id s')

pub record CronManager (C : Type 0) : Type 0 where
  pub locked : Bool
  pub id_mapper : Assoc ℕ
  pub cron : C

pub data Outcome (A : Type 0) : Type 0 where
  blocked : Outcome A
  done : A → Outcome A

infixl 5 ◌>>=◌
abbrev pub ◌>>=◌ : {A B : Type 0} → Outcome A → (A → Outcome B) → Outcome B
blocked >>= next = blocked
done value >>= next = next value

-- `delete(m, key)`
unfoldable pub delete : {V : Type 0} → String → Assoc V → Assoc V
delete key [] = []
delete key ((name, value) ∷ rest) =
    let others = delete key rest in if name == key then others else (name, value) ∷ others

module _ {S C : Type 0} (c : Scheduler S C) where
  abbrev lock : CronManager C → Outcome (CronManager C)
  lock m = if m.locked then blocked else done (record m { locked = true })

  abbrev unlock : CronManager C → CronManager C
  unlock m = record m { locked = false }

  abbrev drop_entry : String → Option ℕ → CronManager C → CronManager C
  drop_entry uid none m = m
  drop_entry uid (some id) m = record m {
    cron = c.remove id m.cron;
    id_mapper = delete uid m.id_mapper;
  }

  -- removeSleepCron, removeResumeCron
  pub remove_cron : String → CronManager C → Outcome (CronManager C)
  unfolding lookup
  remove_cron uid m =
      lock m >>= λ held. done (unlock (drop_entry uid (lookup uid held.id_mapper) held))

  abbrev store_entry : String → Result ℕ × C → CronManager C → Result (Unit {0}) × CronManager C
  store_entry uid (ok id, s) m =
      (ok tt, record m { id_mapper = insert uid id m.id_mapper; cron = s })
  store_entry uid (err e, s) m = (err (wrap_w "failed to add cron entry" e), record m { cron = s })

  abbrev add_entry : String → String → CronManager C → Result (Unit {0}) × CronManager C
  add_entry schedule uid m = store_entry uid (c.add_func schedule m.cron) m

  -- an entry exists: it is kept if the new schedule fires next when it does
  abbrev replace :
      String
      → String
      → ℕ
      → ℕ
      → Result S
      → CronManager C
      → Outcome (Result (Unit {0}) × CronManager C)
  replace schedule uid now id (err e) m = done (err e, m)
  replace schedule uid now id (ok new) m =
      if nat_eq (c.next (c.entry id m.cron) now) (c.next new now)
      then done (ok tt, m)
      else remove_cron uid m >>= λ m'. done (add_entry schedule uid m')

  abbrev existing :
      String
      → String
      → Bool
      → ℕ
      → Option ℕ
      → CronManager C
      → Outcome (Result (Unit {0}) × CronManager C)
  existing schedule uid override now none m = done (add_entry schedule uid m)
  existing schedule uid true now (some id) m = replace schedule uid now id (c.parse schedule) m
  existing schedule uid false now (some id) m = done (err (errorf "cron entry already exists"), m)

  -- addSleepCron, addResumeCron, at the time `now`
  pub add_cron :
      String → String → Bool → ℕ → CronManager C → Outcome (Result (Unit {0}) × CronManager C)
  unfolding remove_cron lookup insert
  add_cron schedule uid override now m = lock m >>= λ held.
      existing schedule uid override now (lookup uid held.id_mapper) held >>= λ r.
      done (r.0, unlock r.1)

  abbrev wake : String → ℕ → Option String → CronManager C → Outcome (CronManager C)
  wake uid now none m = remove_cron uid m
  wake uid now (some schedule) m = add_cron schedule uid true now m >>= λ r. done r.1

  abbrev configure :
      String
      → ℕ
      → Bool
      → WorkspaceAutoHibernation
      → CronManager C × CronManager C
      → Outcome (CronManager C × CronManager C)
  configure uid now true a (sleep, resume) = add_cron a.schedule uid true now sleep >>= λ r.
      wake uid now a.wake_schedule resume >>= λ resume'. done (r.1, resume')
  configure uid now false a (sleep, resume) = remove_cron uid sleep >>= λ sleep'.
      remove_cron uid resume >>= λ resume'. done (sleep', resume')

  -- handleAutoHibernation, on the managers for sleeping and for resuming
  unfoldable pub handle_auto_hibernation :
      String
      → ℕ
      → Option WorkspaceAutoHibernation
      → CronManager C × CronManager C
      → Outcome (CronManager C × CronManager C)
  unfolding add_cron remove_cron
  handle_auto_hibernation uid now none managers = done managers
  handle_auto_hibernation uid now (some a) managers = configure uid now a.enabled a managers
