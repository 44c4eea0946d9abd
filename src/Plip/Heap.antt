-- ===== src/Plip/Heap.antt =====
-- plIpcore/plIpcore.c: the memory in use, and the list of devices by their addresses.
use petalinux_driver.Prelude.{
  ℕ, ◌≡◌, subst, inl, inr, Bool, true, false, List, [], ◌∷◌, ◌++◌, some, ◌==◌, All, Bool-cases,
  ◌||◌, ==_iff, arith,
}
use petalinux_driver.Plip.{Device, Board, Host, update_at, find_at, delete_at}

abbrev pub is_live : ℕ → List ℕ → Bool
is_live a [] = false
is_live a (x ∷ xs) = (x == a) || is_live a xs

-- kzalloc gives an address that is not in use.
abbrev pub IsFresh : Host → Type 0
IsFresh h = (heap : List ℕ) (size a : ℕ) → h.kzalloc heap size ≡ some a → is_live a heap ≡ false

-- Every device of the list is an object that is not freed.
abbrev pub AreLive : Board → Type 0
AreLive b = All (λ (d : Device). is_live d.address b.heap ≡ true) b.devices

abbrev pub IsAbsent : ℕ → List Device → Type 0
IsAbsent a ds = All (λ (d : Device). (d.address == a) ≡ false) ds

pub differs :
    (a x : ℕ) (heap : List ℕ) → is_live a heap ≡ false → is_live x heap ≡ true → (x == a) ≡ false
differs a x heap h k = elim (Bool-cases (x == a)) [
  | inl same ↦
      let e : x ≡ a = (==_iff x a).0 same in
      let both : is_live a heap ≡ true = subst (λ z. is_live z heap ≡ true) e k in cc
  | inr other ↦ other
]

pub live-IsAbsent :
    (a : ℕ) (heap : List ℕ) (ds : List Device)
    → is_live a heap ≡ false
    → All (λ (d : Device). is_live d.address heap ≡ true) ds
    → IsAbsent a ds
live-IsAbsent a heap [] h k = tt
live-IsAbsent a heap (d ∷ ds) h k = (differs a d.address heap h k.0, live-IsAbsent a heap ds h k.1)

pub update_at-append :
    (a : ℕ) (f : Device → Device) (ds : List Device) (d : Device)
    → IsAbsent a ds
    → (d.address == a) ≡ true
    → update_at a f (ds ++ d ∷ []) ≡ ds ++ f d ∷ []
update_at-append a f [] d h k = ground arith
update_at-append a f (x ∷ ds) d h k = ground (arith, update_at-append a f ds d h.1 k)

pub find_at-append :
    (a : ℕ) (ds : List Device) (d : Device)
    → IsAbsent a ds
    → (d.address == a) ≡ true
    → find_at a (ds ++ d ∷ []) ≡ some d
find_at-append a [] d h k = ground arith
find_at-append a (x ∷ ds) d h k = ground (arith, find_at-append a ds d h.1 k)

pub delete_at-append :
    (a : ℕ) (ds : List Device) (d : Device)
    → IsAbsent a ds
    → (d.address == a) ≡ true
    → delete_at a (ds ++ d ∷ []) ≡ ds
delete_at-append a [] d h k = ground arith
delete_at-append a (x ∷ ds) d h k = ground (arith, delete_at-append a ds d h.1 k)
