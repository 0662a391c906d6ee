-- ===== src/Hub/Groups.antt =====
-- The hub's map from a user to the set of the user's connections, as lists: each user stands once.
-- A connection is named by a number, the address of its `Client`.
use edu_learn_notification_s.Prelude.{
  ℕ, ◌+◌, Bool, true, false, ◌||◌, String, ◌≡◌, refl, ◌≢◌, List, [], ◌∷◌, ◌++◌, length, arith, eqb,
  eqb_iff, eq_iff, ◌==◌, if◌then◌else◌,
}

abbrev pub ClientMap : Type 0
ClientMap = List (String × List ℕ)

-- `_, ok := set[c]`
abbrev pub contains : ℕ → List ℕ → Bool
contains c [] = false
contains c (x ∷ xs) = eqb x c || contains c xs

-- `set[c] = struct{}{}`
unfoldable pub insert : ℕ → List ℕ → List ℕ
insert c xs = if contains c xs then xs else c ∷ xs

-- `delete(set, c)`
unfoldable pub remove : ℕ → List ℕ → List ℕ
remove c [] = []
remove c (x ∷ xs) = let rest = remove c xs in if eqb x c then rest else x ∷ rest

-- `m[u]`, with the empty set for a missing user
unfoldable pub members : String → ClientMap → List ℕ
members u [] = []
members u ((v, xs) ∷ gs) = if v == u then xs else members u gs

-- `_, ok := m[u]`
unfoldable pub has_user : String → ClientMap → Bool
has_user u [] = false
has_user u ((v, xs) ∷ gs) = v == u || has_user u gs

-- `m[u] = xs`
pub put : String → List ℕ → ClientMap → ClientMap
put u xs [] = (u, xs) ∷ []
put u xs ((v, ys) ∷ gs) = if v == u then (v, xs) ∷ gs else (v, ys) ∷ put u xs gs

-- `delete(m, u)`
pub erase : String → ClientMap → ClientMap
erase u [] = []
erase u ((v, xs) ∷ gs) = let rest = erase u gs in if v == u then rest else (v, xs) ∷ rest

-- The number of connections in all groups.
unfoldable pub size : ClientMap → ℕ
size [] = 0
size ((u, xs) ∷ gs) = length xs + size gs

abbrev pub Distinct : List ℕ → Type 0
Distinct [] = Unit {0}
Distinct (x ∷ xs) = (contains x xs ≡ false) × Distinct xs

-- Each user once, with a set that has no connection twice and is not empty.
abbrev pub IsTidy : ClientMap → Type 0
IsTidy [] = Unit {0}
IsTidy ((u, xs) ∷ gs) = (has_user u gs ≡ false) × Distinct xs × (xs ≢ []) × IsTidy gs

pub contains-insert :
    (c d : ℕ) (xs : List ℕ) → contains d (insert c xs) ≡ (eqb c d || contains d xs)
unfolding insert
contains-insert c d xs = ground (arith, eqb_iff c d)

pub insert-Distinct : (c : ℕ) (xs : List ℕ) → Distinct xs → Distinct (insert c xs)
unfolding insert
insert-Distinct c xs h = ground arith

pub contains-remove :
    (c d : ℕ) (xs : List ℕ) → contains d (remove c xs) ≡ (if eqb c d then false else contains d xs)
unfolding remove
contains-remove c d [] = ground arith
contains-remove c d (x ∷ xs) = ground (arith, contains-remove c d xs)

pub remove-Distinct : (c : ℕ) (xs : List ℕ) → Distinct xs → Distinct (remove c xs)
unfolding remove
remove-Distinct c [] h = tt
remove-Distinct c (x ∷ xs) h = ground (arith, remove-Distinct c xs h.1, contains-remove c x xs)

remove_absent : (c : ℕ) (xs : List ℕ) → contains c xs ≡ false → remove c xs ≡ xs
unfolding remove
remove_absent c [] h = refl
remove_absent c (x ∷ xs) h = ground (arith, remove_absent c xs)

pub length-remove :
    (c : ℕ) (xs : List ℕ)
    → Distinct xs
    → contains c xs ≡ true
    → length (remove c xs) + 1 ≡ length xs
unfolding remove
length-remove c [] h e = ground arith
length-remove c (x ∷ xs) h e =
    ground (arith, length-remove c xs h.1, remove_absent c xs, eqb_iff x c)

pub members-put :
    (u v : String) (xs : List ℕ) (gs : ClientMap)
    → members v (put u xs gs) ≡ (if u == v then xs else members v gs)
unfolding members put
members-put u v xs [] = ground arith
members-put u v xs ((z, ys) ∷ gs) =
    ground (arith, members-put u v xs gs, eq_iff z u, eq_iff z v, eq_iff u v)

pub members-erase :
    (u v : String) (gs : ClientMap) → members v (erase u gs) ≡ (if u == v then [] else members v gs)
unfolding members erase
members-erase u v [] = ground arith
members-erase u v ((z, ys) ∷ gs) =
    ground (arith, members-erase u v gs, eq_iff z u, eq_iff z v, eq_iff u v)

has_user-put :
    (u v : String) (xs : List ℕ) (gs : ClientMap)
    → has_user v (put u xs gs) ≡ (u == v || has_user v gs)
unfolding has_user put
has_user-put u v xs [] = ground arith
has_user-put u v xs ((z, ys) ∷ gs) =
    ground (arith, has_user-put u v xs gs, eq_iff z u, eq_iff z v, eq_iff u v)

has_user-erase :
    (u v : String) (gs : ClientMap) → has_user v gs ≡ false → has_user v (erase u gs) ≡ false
unfolding has_user erase
has_user-erase u v [] h = refl
has_user-erase u v ((z, ys) ∷ gs) h = ground (arith, has_user-erase u v gs)

pub members_missing : (u : String) (gs : ClientMap) → has_user u gs ≡ false → members u gs ≡ []
unfolding members has_user
members_missing u [] h = refl
members_missing u ((z, ys) ∷ gs) h = ground (arith, members_missing u gs)

pub members-Distinct : (u : String) (gs : ClientMap) → IsTidy gs → Distinct (members u gs)
unfolding members
members-Distinct u [] h = tt
members-Distinct u ((z, ys) ∷ gs) h = ground (arith, members-Distinct u gs h.3)

pub put-IsTidy :
    (u : String) (xs : List ℕ) (gs : ClientMap)
    → Distinct xs
    → xs ≢ []
    → IsTidy gs
    → IsTidy (put u xs gs)
unfolding put has_user
put-IsTidy u xs [] d n h = (refl, d, n, tt)
put-IsTidy u xs ((z, ys) ∷ gs) d n h =
    ground (arith, put-IsTidy u xs gs d n h.3, has_user-put u z xs gs, eq_iff u z, eq_iff z u)

pub erase-IsTidy : (u : String) (gs : ClientMap) → IsTidy gs → IsTidy (erase u gs)
unfolding erase
erase-IsTidy u [] h = tt
erase-IsTidy u ((z, ys) ∷ gs) h = ground (arith, erase-IsTidy u gs h.3, has_user-erase u z gs h.0)

pub size-put :
    (u : String) (xs : List ℕ) (gs : ClientMap)
    → size (put u xs gs) + length (members u gs) ≡ size gs + length xs
unfolding size put members
size-put u xs [] = ground arith
size-put u xs ((z, ys) ∷ gs) = ground (arith, size-put u xs gs)

erase_missing : (u : String) (gs : ClientMap) → has_user u gs ≡ false → erase u gs ≡ gs
unfolding erase has_user
erase_missing u [] h = refl
erase_missing u ((z, ys) ∷ gs) h = ground (arith, erase_missing u gs)

pub size-erase :
    (u : String) (gs : ClientMap) → IsTidy gs → size (erase u gs) + length (members u gs) ≡ size gs
unfolding size erase members
size-erase u [] h = refl
size-erase u ((z, ys) ∷ gs) h = ground (arith, size-erase u gs h.3, erase_missing u gs, eq_iff z u)

pub contains-snoc : (c d : ℕ) (xs : List ℕ) → contains d (xs ++ c ∷ []) ≡ (contains d xs || eqb c d)
contains-snoc c d [] = ground arith
contains-snoc c d (x ∷ xs) = ground (arith, contains-snoc c d xs)

pub Distinct-snoc :
    (c : ℕ) (xs : List ℕ) → Distinct xs → contains c xs ≡ false → Distinct (xs ++ c ∷ [])
Distinct-snoc c [] d h = (refl, tt)
Distinct-snoc c (x ∷ xs) d h = (
  ground (arith, contains-snoc c x xs, eqb_iff x c, eqb_iff c x),
  Distinct-snoc c xs d.1 (ground arith),
)
