-- ===== src/Bridge/Entries.antt =====
-- The entries of the pending requests: what finding, deleting and setting one does to their count.
use godot_mcp.Base.{
  String, ◌+◌, ◌≡◌, ◌≤◌, false, List, [], ◌∷◌, some, Bool-cases, arith, eq_iff, str_eq,
  if◌then◌else◌, refl, ap, ◌∙◌, inl, inr, none,
}
use godot_mcp.Connection.{PendingRequest}
use godot_mcp.Bridge.Requests.{find_request, delete_request, set_request}
use godot_mcp.Bridge.Steps.{times_pending}

pub times_pending-delete :
    (i : String) (rs : List PendingRequest) → times_pending i (delete_request i rs) ≡ 0
unfolding times_pending delete_request
times_pending-delete i [] = refl
times_pending-delete i (r ∷ rs) = ground (arith, times_pending-delete i rs)

pub times_pending-delete_other :
    (i j : String) (rs : List PendingRequest)
    → str_eq j i ≡ false
    → times_pending i (delete_request j rs) ≡ times_pending i rs
unfolding times_pending delete_request
times_pending-delete_other i j [] h = refl
times_pending-delete_other i j (r ∷ rs) h = elim (Bool-cases (str_eq r.id j)) [
  | inl same ↦
      let this : str_eq r.id i ≡ false = ap (λ s. str_eq s i) ((eq_iff r.id j).0 same) ∙ h in
      ground (arith, times_pending-delete_other i j rs h)
  | inr other ↦ ground (arith, times_pending-delete_other i j rs h)
]

-- An entry that is found has the identifier, and counts.
pub find-Found :
    (i : String) (rs : List PendingRequest) (r : PendingRequest)
    → find_request i rs ≡ some r
    → (r.id ≡ i) × (1 ≤ times_pending i rs)
unfolding times_pending find_request
find-Found i [] r h = ground arith
find-Found i (q ∷ rs) r h = elim (Bool-cases (str_eq q.id i)) [
  | inl same ↦ let named = (eq_iff q.id i).0 same in ground (arith, named)
  | inr other ↦ let rest = find-Found i rs r in ground (arith, rest)
]

pub times_pending-set :
    (i : String) (q : PendingRequest) (rs : List PendingRequest)
    → times_pending q.id rs ≡ 0
    → times_pending i (set_request q rs) ≡ times_pending i rs + (if str_eq q.id i then 1 else 0)
unfolding times_pending set_request
times_pending-set i q [] h = ground arith
times_pending-set i q (r ∷ rs) h = ground (arith, times_pending-set i q rs)

times_pending-delete_le :
    (i j : String) (rs : List PendingRequest)
    → times_pending i (delete_request j rs) ≤ times_pending i rs
unfolding times_pending delete_request
times_pending-delete_le i j [] = ground arith
times_pending-delete_le i j (r ∷ rs) = ground (arith, times_pending-delete_le i j rs)

-- The entry that is found is the one that is deleted, where its identifier counts once at most.
pub times_pending-find :
    (i j : String) (rs : List PendingRequest) (r : PendingRequest)
    → find_request j rs ≡ some r
    → times_pending i rs ≤ 1
    → times_pending i (delete_request j rs) + (if str_eq r.id i then 1 else 0) ≡ times_pending i rs
unfolding times_pending find_request delete_request
times_pending-find i j [] r found once = ground arith
times_pending-find i j (q ∷ rs) r found once = elim (Bool-cases (str_eq q.id j)) [
  | inl same ↦
      let named = (eq_iff q.id j).0 same in
      ground (arith, named, times_pending-delete_le i j rs, times_pending-delete_other i j rs)
  | inr other ↦ ground (arith, times_pending-find i j rs r)
]

pub find-set :
    (j : String) (q : PendingRequest) (rs : List PendingRequest)
    → find_request j (set_request q rs) ≡ (if str_eq q.id j then some q else find_request j rs)
unfolding find_request set_request
find-set j q [] = refl
find-set j q (r ∷ rs) = elim (Bool-cases (str_eq r.id q.id)) [
  | inl same ↦ let named = (eq_iff r.id q.id).0 same in ground (arith, named, find-set j q rs)
  | inr other ↦
      ground
        (arith, other, (eq_iff r.id j).0, (eq_iff q.id j).0, (eq_iff r.id q.id).1, find-set j q rs)
]

pub find-delete :
    (j i : String) (rs : List PendingRequest)
    → find_request j (delete_request i rs) ≡ (if str_eq i j then none else find_request j rs)
unfolding find_request delete_request
find-delete j i [] = ground arith
find-delete j i (r ∷ rs) = elim (Bool-cases (str_eq r.id i)) [
  | inl same ↦ let named = (eq_iff r.id i).0 same in ground (arith, named, find-delete j i rs)
  | inr other ↦
      ground
        (arith, other, (eq_iff r.id j).0, (eq_iff i j).0, (eq_iff r.id i).1, find-delete j i rs)
]

pub find-absent :
    (i : String) (rs : List PendingRequest) → times_pending i rs ≡ 0 → find_request i rs ≡ none
unfolding find_request times_pending
find-absent i [] h = refl
find-absent i (r ∷ rs) h = ground (arith, find-absent i rs)
