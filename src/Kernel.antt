-- ===== src/Kernel.antt =====
-- What the drivers take from the Linux kernel, which is not part of this repository: the answers of
-- the device and of the kernel's services are fields of `Platform`, which every operation takes.
-- The kernel's intrusive lists are `List`, and `list_first_entry` of an empty list is a fault.
pub mod Ledger
use petalinux_driver.Prelude.{
  ℕ, ◌≡◌, refl, ◌⊎◌, inl, inr, Bool, true, false, Option, none, some, List,
}

-- The members of `enum dma_transfer_direction` that the drivers name, and the rest of it.
pub data Direction : Type 0 where
  dma_mem_to_dev dma_dev_to_mem other_direction : Direction

-- `enum dma_status`, as far as the drivers tell its members apart.
pub data DmaStatus : Type 0 where
  dma_complete dma_in_progress dma_error : DmaStatus

pub data Errno : Type 0 where
  ebusy enomem einval enodev eagain efault eio eperm : Errno

-- An `int` result: 0 or a positive value, or a negative error number. `eperm` is -1.
pub data Code : Type 0 where
  code : ℕ → Code
  neg : Errno → Code

-- What the C program has no defined behaviour for, and `BUG()`.
pub data Fault : Type 0 where
  wild_access bug div_by_zero out_of_bounds out_of_fuel : Fault

pub data Result {ℓ} (A : Type ℓ) : Type ℓ where
  ok : A → Result A
  fault : Fault → Result A

infixl 5 ◌>>=◌
abbrev pub ◌>>=◌ {ℓ κ} : {A : Type ℓ} {B : Type κ} → Result A → (A → Result B) → Result B
ok a >>= f = f a
fault e >>= f = fault e

-- An entry that the code takes from a list without a test that there is one.
abbrev pub entry {ℓ} : {A : Type ℓ} → Option A → Result A
entry none = fault Fault.wild_access
entry (some a) = ok a

-- What a driver does to the world outside its own data, one event for each access to the device and
-- for each call of the kernel or of a client that matters.
pub data Event : Type 0 where
  did_read : (reg : ℕ) → Event
  wrote : (reg value : ℕ) → Event
  wrote_quad : (reg value : ℕ) → Event
  polled : (reg : ℕ) → Event
  called_back : (callback : ℕ) → Event
  ran_dependencies : (cookie : ℕ) → Event
  scheduled_tasklet killed_tasklet : Event
  allocated_desc freed_desc : Event
  allocated_segments freed_segments : Event
  freed_irq : (irq : ℕ) → Event

-- The cookie counters of the kernel's `struct dma_chan`.
pub record Cookies : Type 0 where
  pub cookie : ℕ
  pub completed_cookie : ℕ

-- `trace` below is what has happened so far, newest first: the device and the allocators answer by
-- their history. `readl_poll_timeout` says whether the poll timed out before its condition held.
pub record Platform : Type 0 where
  pub phys_addr_64 : Bool  -- CONFIG_PHYS_ADDR_T_64BIT
  pub ioread32 : (trace : List Event) → ℕ → ℕ
  pub readl_poll_timeout : (trace : List Event) → ℕ → (ℕ → Bool) → Bool
  pub kzalloc_fails : (trace : List Event) → Bool
  pub dma_zalloc_coherent : (trace : List Event) → Option ℕ
  pub is_slave_direction : Direction → Bool
  pub dma_cookie_init : Cookies → Cookies
  pub dma_cookie_assign : Cookies → ℕ × Cookies
  pub dma_cookie_complete : (cookie : ℕ) → Cookies → Cookies
  pub dma_cookie_status : Cookies → (cookie : ℕ) → DmaStatus

-- What a chain that has a result goes through.
pub >>=-eq-ok {κ ℓ} :
    {B : Type κ} {A : Type ℓ} (first : Result A) (next : A → Result B) {last : B}
    → (first >>= next) ≡ ok last
    → (between : A) × (first ≡ ok between) × (next between ≡ ok last)
>>=-eq-ok (ok between) next h = (between, refl, h)
>>=-eq-ok (fault e) next h = cc

pub ok-injective {ℓ} : {A : Type ℓ} {a b : A} → ok a ≡ ok b → a ≡ b
ok-injective h = cc

pub Result-cases {ℓ} :
    {A : Type ℓ} (m : Result A) → ((a : A) × (m ≡ ok a)) ⊎ ((e : Fault) × (m ≡ fault e))
Result-cases (ok a) = inl (a, refl)
Result-cases (fault e) = inr (e, refl)

abbrev pub is_ok {ℓ} : {A : Type ℓ} → Result A → Bool
is_ok (ok a) = true
is_ok (fault e) = false

pub is_ok-value {ℓ} : {A : Type ℓ} (m : Result A) → is_ok m ≡ true → (a : A) × (m ≡ ok a)
is_ok-value (ok a) h = (a, refl)
is_ok-value (fault e) h = cc
