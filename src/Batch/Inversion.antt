-- ===== src/Batch/Inversion.antt =====
-- Taking a successful action apart, and what the small actions leave alone.
use mini_agent_harness.Prelude.{◌≡◌, refl, List, arith}
use mini_agent_harness.Execution.{
  ExecutionJournalEntry, Appended, written, refused, append_if_present,
}
use mini_agent_harness.Batch.Monad.{
  Options, BatchState, Exec, Result, ok, err, append_journal, ◌>>=◌, ◌>>◌,
}

module _ {V W : Type 0} where
  pub >>=-eq-ok :
      {A B : Type 0} (m : Exec V W A) (f : A → Exec V W B) (s : BatchState V W) {t : BatchState V W}
      {b : B}
      → (m >>= f) s ≡ (t, ok b)
      → (u : BatchState V W) × (a : A) × (m s ≡ (u, ok a)) × (f a u ≡ (t, ok b))
  unfolding ◌>>=◌
  >>=-eq-ok {A} {B} m f s {t} {b} h = go (m s) refl
    where
      go :
          (r : BatchState V W × Result A)
          → m s ≡ r
          → (u : BatchState V W) × (a : A) × (m s ≡ (u, ok a)) × (f a u ≡ (t, ok b))
      go (u, ok a) e = (u, a, e, ground (arith, e, h))
      go (u, err x) e = absurd (ground (arith, e, h))

  pub >>-eq-ok :
      {B : Type 0} (m : Exec V W (Unit {0})) (k : Exec V W B) (s : BatchState V W)
      {t : BatchState V W} {b : B}
      → (m >> k) s ≡ (t, ok b)
      → (u : BatchState V W) × (m s ≡ (u, ok tt)) × (k u ≡ (t, ok b))
  unfolding ◌>>◌
  >>-eq-ok m k s h = let (u, a, e, g) = >>=-eq-ok m (λ _. k) s h in (u, e, g)

  -- A journal write that succeeds has added its entry at most; a refused one has changed nothing.
  pub append_journal_ok :
      (o : Options V W) (e : ExecutionJournalEntry V) (s : BatchState V W) {t : BatchState V W}
      → append_journal o e s ≡ (t, ok tt)
      → (log : List (ExecutionJournalEntry V)) × (t ≡ record s { journal = log })
  unfolding append_journal
  append_journal_ok o e s {t} h = go (append_if_present o.sink e s.journal) refl
    where
      go :
          (r : Appended V)
          → append_if_present o.sink e s.journal ≡ r
          → (log : List (ExecutionJournalEntry V)) × (t ≡ record s { journal = log })
      go (written log) q = (log, ground (arith, q, h))
      go (refused x) q = absurd (ground (arith, q, h))
