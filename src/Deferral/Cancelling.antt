-- ===== src/Deferral/Cancelling.antt =====
-- Cancelling one deferred promise, and all of them.
use streamerson.Prelude.{
  ℕ, String, ◌≡◌, ◌⊎◌, Bool, false, ◌||◌, Option, some, List, [], ◌∷◌, get_elem?, ◌==◌,
}
use streamerson.Prelude.Dict
use streamerson.Prelude.Dict.{Dict, get-remove}
use streamerson.Deferral.{DeferralTracker, pending, rejected, cancelled}

abbrev contains : List String → String → Bool
contains [] k = false
contains (j ∷ js) k = j == k || contains js k

module _ (message : Option String) (p : ℕ) where
  abbrev Doomed : DeferralTracker → Type 0
  Doomed t =
      (get_elem? t.settled p ≡ some pending)
      ⊎ (get_elem? t.settled p ≡ some (rejected (cancelled message)))
