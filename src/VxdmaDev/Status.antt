-- ===== src/VxdmaDev/Status.antt =====
-- vxdma/vxdma.c with vxdma/vxdma_dev.c: what a client that asks for the status of a cookie is told.
pub mod Steps
pub mod Calls
pub mod Runs
use petalinux_driver.Prelude.{
  ℕ, zero, suc, ◌+◌, ◌≤◌, ◌<◌, ◌≡◌, refl, sym, ap, ◌∙◌, List, [], ◌∷◌, ◌++◌, length, false, All,
  All-append, arith,
}
use petalinux_driver.Kernel.{Cookies, Platform, DmaStatus, dma_complete, dma_in_progress}
use petalinux_driver.Vxdma.Chan.{TxDesc, Chan}
use petalinux_driver.VxdmaDev.Client.{cookies_of}

-- Cookies are of a signed type of 32 bits.
abbrev pub max_cookie : ℕ
max_cookie = 0x7fff_ffff

-- What include/linux/dmaengine.h and drivers/dma/dmaengine.h say of the helpers: below the wrap, a
-- cookie is one more than the one before; a completion notes its cookie; and a cookie that was given
-- out is complete if it is at most the one noted.
pub record KeepsCookies (p : Platform) : Type 0 where
  pub assign :
      (k : Cookies)
      → k.cookie < max_cookie
      → p.dma_cookie_assign k ≡ (k.cookie + 1, record k { cookie = k.cookie + 1 })
  pub complete :
      (i : ℕ) (k : Cookies) → p.dma_cookie_complete i k ≡ record k { completed_cookie = i }
  pub over :
      (i : ℕ) (k : Cookies)
      → i ≤ k.completed_cookie
      → k.completed_cookie ≤ k.cookie
      → p.dma_cookie_status k i ≡ dma_complete
  pub under_way :
      (i : ℕ) (k : Cookies)
      → k.completed_cookie < i
      → i ≤ k.cookie
      → p.dma_cookie_status k i ≡ dma_in_progress

-- The `n` numbers behind `s`.
abbrev pub upto : ℕ → ℕ → List ℕ
upto s zero = []
upto s (suc n) = suc s ∷ upto (suc s) n

pub upto-append : (s n m : ℕ) → upto s n ++ upto (s + n) m ≡ upto s (n + m)
upto-append s zero m =
    let left : s + 0 ≡ s = omega arith in
    let right : m ≡ 0 + m = omega arith in ap (λ x. upto x m) left ∙ ap (upto s) right
upto-append s (suc n) m =
    let next : s + suc n ≡ suc s + n = omega arith in
    let more : suc (n + m) ≡ suc n + m = omega arith in
    ap (λ (l : List ℕ). suc s ∷ l)
      (ap (λ x. upto (suc s) n ++ upto x m) next ∙ upto-append (suc s) n m)
    ∙ ap (upto s) more

abbrev pub IsPlainDesc : TxDesc → Type 0
IsPlainDesc d = d.cyclic ≡ false

abbrev pub IsOver : Cookies → ℕ → Type 0
IsOver k i = i ≤ k.completed_cookie

-- The cookies under way are those behind the one that was noted, in order, up to the last one given
-- out; those of the done list are at most the one noted.
pub record ToldBy (pending active done : List TxDesc) (k : Cookies) : Type 0 where
  pub plain_pending : All IsPlainDesc pending
  pub plain_active : All IsPlainDesc active
  pub running : cookies_of active ≡ upto k.completed_cookie (length active)
  pub waiting : cookies_of pending ≡ upto (k.completed_cookie + length active) (length pending)
  pub last : k.completed_cookie + length active + length pending ≡ k.cookie
  pub behind : All (IsOver k) (cookies_of done)

abbrev pub Told : Chan → Type 0
Told c = ToldBy c.pending_list c.active_list c.done_list c.cookies

pub IsOver-mono :
    (k k' : Cookies) (l : List ℕ)
    → k.completed_cookie ≤ k'.completed_cookie
    → All (IsOver k) l
    → All (IsOver k') l
IsOver-mono k k' [] h v = tt
IsOver-mono k k' (i ∷ l) h v = (omega (arith, v.0), IsOver-mono k k' l h v.1)
