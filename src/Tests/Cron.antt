-- ===== src/Tests/Cron.antt =====
-- A run of a cron manager on a scheduler that numbers its entries.
use forkspacer.Base.{
  ℕ, ◌+◌, ◌<◌, ◌≡◌, refl, true, false, List, [], ◌∷◌, nat_eq, if◌then◌else◌, arith, lookup,
}
use forkspacer.Go.{Result, ok}
use forkspacer.Controller.Cron.{Scheduler, CronManager}
use forkspacer.Controller.Cron.Table.{
  Op, add, remove, EntryLaws, IsGood, Agrees, perform_all, specify_all, view,
}
use forkspacer.Controller.Cron.Refinement.{perform_all-Agrees}

-- the next number, and the hours after which each entry fires
pub record Entries : Type 0 where
  pub next_number : ℕ
  pub hours : ℕ → ℕ

abbrev after : Entries → Entries
after s = record {
  next_number = s.next_number + 1;
  hours = λ id. if nat_eq id s.next_number then 8 else s.hours id;
}

-- Every text means eight hours.
abbrev scheduler : Scheduler ℕ Entries
scheduler = record {
  parse = λ text. ok 8;
  next = λ hours now. now + hours;
  entry = λ id s. s.hours id;
  add_func = λ text s. (ok s.next_number, after s);
  remove = λ id s. s;
}

nat_eq_refl : (n : ℕ) → nat_eq n n ≡ true
nat_eq_refl n = ground arith

nat_eq-less : (m n : ℕ) → m < n → nat_eq m n ≡ false
nat_eq-less m n h = ground arith

eight : (new : ℕ) → ◌≡◌ {A = Result ℕ} (ok 8) (ok new) → 8 ≡ new
eight new h = cc

hours_new : (s : Entries) (new : ℕ) → 8 ≡ new → (after s).hours s.next_number ≡ new
hours_new s new h = rw (nat_eq_refl s.next_number) h

hours_old : (s : Entries) (id : ℕ) → id < s.next_number → (after s).hours id ≡ s.hours id
hours_old s id h = rw (nat_eq-less id s.next_number h) refl

entry_laws : EntryLaws scheduler
entry_laws = record {
  next_id = λ s. s.next_number;
  added = λ text new s h. (after s, refl, omega arith, hours_new s new (eight new h), hours_old s);
  rejected = λ text e s h. cc;
  removed = λ id other s n. refl;
  removed_next = λ id s. refl;
}

abbrev fresh : CronManager Entries
fresh = record {
  locked = false;
  id_mapper = [];
  cron = record { next_number = 1; hours = λ id. 0 };
}

-- two workspaces, of which one is removed and added again
abbrev ops : List (ℕ × Op)
ops =
    (0, add "0 8 * * *" "a")
    ∷ (1, add "0 8 * * *" "b")
    ∷ (2, remove "a")
    ∷ (3, add "0 8 * * *" "a")
    ∷ []

fresh-IsGood : IsGood scheduler entry_laws fresh
unfolding lookup
fresh-IsGood = (refl, (λ uid id h. cc), (λ uid v id h k. cc))

perform_all-Agrees_example :
    Agrees scheduler entry_laws
      (perform_all scheduler ops fresh)
      (specify_all scheduler ops (view scheduler fresh))
perform_all-Agrees_example = perform_all-Agrees scheduler entry_laws ops fresh fresh-IsGood
