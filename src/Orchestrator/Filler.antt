-- ===== src/Orchestrator/Filler.antt =====
-- crates/cachic/src/orchestrator/filler.rs: the object-level single flight, and what its subscribers see.
-- A `Fill` is shared by reference: the registry maps an object to the number of its watch channel, and
-- the channels are kept apart from the registry, as they outlive their entry.
pub mod Laws
use cachic.Common.{
  ℕ, zero, suc, ◌+◌, Bool, true, false, Option, none, some, List, [], ◌∷◌, ◌++◌, ltb, ◌==◌,
  if◌then◌else◌, Result, ok, err, length,
}
use cachic.Common.Text.{text_eq}
use cachic.Store.Slice.{ObjectId}

-- A failure's reason is text, which is not modelled but for the case that the code makes itself.
pub data Reason : Type 0 where
  upstream : List ℕ → Reason
  never_produced : ℕ → ℕ → Reason
  abandoned : Reason

pub data Progress : Type 0 where
  ready : ℕ → Progress
  complete : ℕ → Progress
  failed : Reason → Progress

unfoldable pub covers : Progress → ℕ → Bool
covers (ready count) index = ltb index count
covers (complete count) index = ltb index count
covers (failed reason) index = false

unfoldable pub is_terminal : Progress → Bool
is_terminal (ready count) = false
is_terminal (complete count) = true
is_terminal (failed reason) = true

pub record FillRegistry : Type 0 where
  pub fills : List (ObjectId × ℕ)
  pub channels : List Progress

pub data Role : Type 0 where
  filler : ℕ → Role
  subscriber : ℕ → Role

unfoldable pub find : ObjectId → List (ObjectId × ℕ) → Option ℕ
find k [] = none
find k ((j, c) ∷ rest) = if text_eq j k then some c else find k rest

unfoldable pub without : ObjectId → List (ObjectId × ℕ) → List (ObjectId × ℕ)
without k [] = []
without k ((j, c) ∷ rest) =
    let rest' = without k rest in if text_eq j k then rest' else (j, c) ∷ rest'

-- A new channel holds `Ready { count: 0 }`.
unfoldable pub claim_found : ObjectId → FillRegistry → Option ℕ → FillRegistry × Role
claim_found object r (some c) = (r, subscriber c)
claim_found object r none =
    let c = length r.channels in
    (record { fills = (object, c) ∷ r.fills; channels = r.channels ++ (ready 0 ∷ []) }, filler c)

unfoldable pub claim : ObjectId → FillRegistry → FillRegistry × Role
unfolding claim_found find
claim object r = claim_found object r (find object r.fills)

unfoldable pub release : ObjectId → FillRegistry → FillRegistry
unfolding without
release object r = record r { fills = without object r.fills }

-- `send_replace`: the channel takes the value, whether or not anyone listens.
unfoldable pub send_replace : ℕ → Progress → List Progress → List Progress
send_replace c p [] = []
send_replace zero p (q ∷ qs) = p ∷ qs
send_replace (suc c) p (q ∷ qs) = q ∷ send_replace c p qs

unfoldable pub publish : ℕ → Progress → FillRegistry → FillRegistry
unfolding send_replace
publish c p r = record r { channels = send_replace c p r.channels }

unfoldable pub active : FillRegistry → ℕ
active r = length r.fills

-- One look at the channel: an answer, or wait for a change.
unfoldable pub look : Progress → ℕ → Option (Result (Unit {0}) Reason)
look (ready count) index = if ltb index count then some (ok tt) else none
look (complete count) index =
    some (if ltb index count then ok tt else err (never_produced count index))
look (failed reason) index = some (err reason)

unfoldable pub answer_or {ℓ} : {A : Type ℓ} → Option A → A → A
answer_or none later = later
answer_or (some answer) later = answer

-- The values that a receiver sees, one after the other; at the end of the list the sender is gone.
unfoldable pub wait_for : List Progress → ℕ → Result (Unit {0}) Reason
unfolding look answer_or
wait_for [] index = err abandoned
wait_for (p ∷ rest) index = answer_or (look p index) (wait_for rest index)
