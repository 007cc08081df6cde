-- ===== src/Health/Recent/Newest.antt =====
-- The five newest accounts are the newest ones.

use mathlib.Core.List.Perm
use mathlib.Core.List.{Perm, perm_middle}
use personal_password_manage.Prelude.{
  ℕ, suc, zero, ◌+◌, ◌++◌, ◌≡◌, refl, inl, inr, true, false, List, [], ◌∷◌, arith, Bool-cases, Text,
  length, take, drop, take-append-drop, append-nil, All,
}
use Prim.Native.Nat.{min}
use personal_password_manage.Vault.{VaultItem}
use personal_password_manage.Health.Recent.{
  text_ltb, older, insert_newest, sort_into, by_newest, recent,
}

text_ltb_asym : (s t : Text) → text_ltb s t ≡ true → text_ltb t s ≡ false
unfolding text_ltb
text_ltb_asym [] [] h = refl
text_ltb_asym [] (b ∷ t) h = refl
text_ltb_asym (a ∷ s) [] h = cc
text_ltb_asym (a ∷ s) (b ∷ t) h = ground (arith, text_ltb_asym s t)

text_ltb_trans : (s t v : Text) → text_ltb s t ≡ false → text_ltb t v ≡ false → text_ltb s v ≡ false
unfolding text_ltb
text_ltb_trans [] [] v h k = k
text_ltb_trans [] (b ∷ t) v h k = cc
text_ltb_trans (a ∷ s) t [] h k = refl
text_ltb_trans (a ∷ s) [] (c ∷ v) h k = cc
text_ltb_trans (a ∷ s) (b ∷ t) (c ∷ v) h k = ground (arith, text_ltb_trans s t v)

abbrev pub NotOlder : VaultItem → VaultItem → Type 0
NotOlder x y = older x y ≡ false

abbrev pub NewestFirst : List VaultItem → Type 0
NewestFirst [] = Unit
NewestFirst (x ∷ xs) = All (NotOlder x) xs × NewestFirst xs

All-insert :
    (y x : VaultItem) (ys : List VaultItem)
    → NotOlder y x
    → All (NotOlder y) ys
    → All (NotOlder y) (insert_newest x ys)
unfolding insert_newest
All-insert y x [] h k = (h, tt)
All-insert y x (z ∷ ys) h k = elim (Bool-cases (older x z)) [
  | inl e ↦ rw e (k.0, All-insert y x ys h k.1)
  | inr e ↦ rw e (h, k)
]

All-trans :
    (x y : VaultItem) (ys : List VaultItem)
    → NotOlder x y
    → All (NotOlder y) ys
    → All (NotOlder x) ys
All-trans x y [] h k = tt
All-trans x y (z ∷ ys) h k =
    (text_ltb_trans x.updated_at y.updated_at z.updated_at h k.0, All-trans x y ys h k.1)

insert-NewestFirst :
    (x : VaultItem) (ys : List VaultItem) → NewestFirst ys → NewestFirst (insert_newest x ys)
unfolding insert_newest
insert-NewestFirst x [] h = (tt, tt)
insert-NewestFirst x (y ∷ ys) h = elim (Bool-cases (older x y)) [
  | inl e ↦
      let before = text_ltb_asym x.updated_at y.updated_at e in
      rw e (All-insert y x ys before h.0, insert-NewestFirst x ys h.1)
  | inr e ↦ rw e ((e, All-trans x y ys e h.0), h)
]

sort_into-NewestFirst :
    (sorted items : List VaultItem) → NewestFirst sorted → NewestFirst (sort_into sorted items)
unfolding sort_into
sort_into-NewestFirst sorted [] h = h
sort_into-NewestFirst sorted (x ∷ items) h =
    sort_into-NewestFirst (insert_newest x sorted) items (insert-NewestFirst x sorted h)

insert_newest-perm : (x : VaultItem) (ys : List VaultItem) → Perm (insert_newest x ys) (x ∷ ys)
unfolding insert_newest
insert_newest-perm x [] = Perm.rfl
insert_newest-perm x (y ∷ ys) = elim (Bool-cases (older x y)) [
  | inl e ↦ rw e (Perm.trans (Perm.cons y (insert_newest-perm x ys)) (Perm.swap x y ys))
  | inr e ↦ rw e Perm.rfl
]

sort_into-perm : (sorted items : List VaultItem) → Perm (sort_into sorted items) (sorted ++ items)
unfolding sort_into
sort_into-perm sorted [] = rw (append-nil) Perm.rfl
sort_into-perm sorted (x ∷ items) = Perm.trans (sort_into-perm (insert_newest x sorted) items) (
    Perm.trans (Perm.append (insert_newest-perm x sorted) Perm.rfl)
      (Perm.symm (perm_middle sorted items)))

All-drop :
    (x : VaultItem) (n : ℕ) (xs : List VaultItem)
    → All (NotOlder x) xs
    → All (NotOlder x) (drop n xs)
All-drop x zero xs h = h
All-drop x (suc n) [] h = tt
All-drop x (suc n) (y ∷ xs) h = All-drop x n xs h.1

All-take :
    (x : VaultItem) (n : ℕ) (xs : List VaultItem)
    → All (NotOlder x) xs
    → All (NotOlder x) (take n xs)
All-take x zero xs h = tt
All-take x (suc n) [] h = tt
All-take x (suc n) (y ∷ xs) h = (h.0, All-take x n xs h.1)

take-newest :
    (n : ℕ) (xs : List VaultItem)
    → NewestFirst xs
    → All (λ x. All (NotOlder x) (drop n xs)) (take n xs) × NewestFirst (take n xs)
take-newest zero xs h = (tt, tt)
take-newest (suc n) [] h = (tt, tt)
take-newest (suc n) (x ∷ xs) h =
    let (apart, sorted) = take-newest n xs h.1 in
    ((All-drop x n xs h.0, apart), (All-take x n xs h.0, sorted))

length-insert :
    (x : VaultItem) (ys : List VaultItem) → length (insert_newest x ys) ≡ suc (length ys)
unfolding insert_newest
length-insert x [] = refl
length-insert x (y ∷ ys) = ground (arith, length-insert x ys)

length-sort_into :
    (sorted items : List VaultItem) → length (sort_into sorted items) ≡ length sorted + length items
unfolding sort_into
length-sort_into sorted [] = omega arith
length-sort_into sorted (x ∷ items) =
    omega (arith, length-sort_into (insert_newest x sorted) items, length-insert x sorted)

length-take : (n : ℕ) (xs : List VaultItem) → length (take n xs) ≡ min n (length xs)
length-take zero xs = omega arith
length-take (suc n) [] = omega arith
length-take (suc n) (x ∷ xs) = omega (arith, length-take n xs)

-- The dashboard lists accounts of the vault, each as often as it is there, the newest first: none that it
-- leaves out is newer than one that it lists, and it leaves none out where there are at most five.
pub recent-newest :
    (items : List VaultItem)
    → (rest : List VaultItem) × Perm (recent items ++ rest) items
      × All (λ x. All (NotOlder x) rest) (recent items)
      × NewestFirst (recent items)
      × (length (recent items) ≡ min 5 (length items))
unfolding recent by_newest
recent-newest items =
    let (apart, sorted) = take-newest 5 (by_newest items) (sort_into-NewestFirst [] items tt) in
    (
      drop 5 (by_newest items),
      rw (take-append-drop 5 (sort_into [] items)) (sort_into-perm [] items),
      apart,
      sorted,
      omega (arith, length-take 5 (sort_into [] items), length-sort_into [] items),
    )
