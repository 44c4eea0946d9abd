-- ===== src/VxdmaDev/Status/Steps.antt =====
-- vxdma/vxdma.c: what each step does to the cookies that are under way.
use mathlib.Core.List.{map-append}
use petalinux_driver.Prelude.{
  ℕ, zero, suc, ◌+◌, ◌≤◌, ◌<◌, ◌≡◌, refl, sym, ap, ◌∙◌, subst, List, [], ◌∷◌, ◌++◌, length,
  length-append, length-map_last, inl, inr, All, All-append, Bool-cases, if◌then◌else◌, arith,
}
use petalinux_driver.Kernel.{Cookies, Platform}
use petalinux_driver.Vxdma.Chan.{TxDesc, Chan, u32}
use petalinux_driver.Vxdma.Engine.Launch.{IsLaunched}
use petalinux_driver.Vxdma.Queue.{desc_cleanup, link_desc}
use petalinux_driver.Vxdma.Queue.Complete.{Completed, complete_cookies}
use petalinux_driver.Vxdma.Queue.Cleanup.{retired, remaining, desc_cleanup_lem}
use petalinux_driver.Vxdma.Invariant.Enqueue.{enqueued, linked, map-cookie-linked}
use petalinux_driver.VxdmaDev.Client.{cookies_of}
use petalinux_driver.VxdmaDev.Status.{
  KeepsCookies, max_cookie, upto, upto-append, IsPlainDesc, IsOver, ToldBy, Told, IsOver-mono,
}

-- The completion of plain descriptors whose cookies are the `n` numbers behind `s`.
complete_cookies-upto :
    (p : Platform) (ds : List TxDesc) (k : Cookies)
    → KeepsCookies p
    → All IsPlainDesc ds
    → cookies_of ds ≡ upto k.completed_cookie (length ds)
    → complete_cookies p ds k ≡ record k { completed_cookie = k.completed_cookie + length ds }
complete_cookies-upto p [] k q h e = ground arith
complete_cookies-upto p (d ∷ ds) k q h e =
    let k' : Cookies = record k { completed_cookie = suc k.completed_cookie } in
    let first : d.cookie ≡ suc k.completed_cookie = cc in
    let others : cookies_of ds ≡ upto (suc k.completed_cookie) (length ds) = cc in
    let noted : (if d.cyclic then k else p.dma_cookie_complete d.cookie k) ≡ k' =
      simp (h.0, first, q.complete (suc k.completed_cookie) k) in
    ap (complete_cookies p ds) noted
    ∙ complete_cookies-upto p ds k' q h.1 others
    ∙ ap (λ x. record k { completed_cookie = x }) (omega arith)

linked-plain : (next : ℕ) (ds : List TxDesc) → All IsPlainDesc ds → All IsPlainDesc (linked next ds)
linked-plain next [] h = tt
linked-plain next (d ∷ []) h = h
linked-plain next (d ∷ e ∷ ds) h = (h.0, linked-plain next (e ∷ ds) h.1)

upto-IsOver : (k : Cookies) (s n : ℕ) → s + n ≤ k.completed_cookie → All (IsOver k) (upto s n)
upto-IsOver k s zero h = tt
upto-IsOver k s (suc n) h = (omega (arith, h), upto-IsOver k (suc s) n (omega (arith, h)))

-- What was pending is under way.
launched-ToldBy :
    (pending active done : List TxDesc) (k : Cookies)
    → ToldBy pending active done k
    → ToldBy [] (active ++ pending) done k
launched-ToldBy pending active done k t =
    let sum = length-append active pending in
    record {
      plain_pending = tt;
      plain_active = All-append IsPlainDesc active pending t.plain_active t.plain_pending;
      running =
          map-append (λ (d : TxDesc). d.cookie) active pending
          ∙ ap (λ l. l ++ cookies_of pending) t.running
          ∙ ap (λ l. upto k.completed_cookie (length active) ++ l) t.waiting
          ∙ upto-append k.completed_cookie (length active) (length pending)
          ∙ ap (upto k.completed_cookie) (sym sum);
      waiting = refl;
      last = omega (arith, t.last, sum);
      behind = t.behind;
    }

-- What was under way is done.
completed-ToldBy :
    (pending active done : List TxDesc) (k : Cookies)
    → ToldBy pending active done k
    → ToldBy pending []
        (done ++ active)
        (record k { completed_cookie = k.completed_cookie + length active })
completed-ToldBy pending active done k t =
    let k' : Cookies = record k { completed_cookie = k.completed_cookie + length active } in
    let here : k.completed_cookie + length active ≡ k.completed_cookie + length active + 0 =
      omega arith in
    record {
      plain_pending = t.plain_pending;
      plain_active = tt;
      running = refl;
      waiting = t.waiting ∙ ap (λ x. upto x (length pending)) here;
      last = omega (arith, t.last);
      behind =
          rw (map-append (λ (d : TxDesc). d.cookie) done active, t.running)
            (All-append (IsOver k') (cookies_of done) (upto k.completed_cookie (length active))
              (IsOver-mono k k' (cookies_of done) (omega arith) t.behind)
              (upto-IsOver k' k.completed_cookie (length active) (omega arith)));
    }

pub Completed-Told :
    (p : Platform) (c c' : Chan)
    → KeepsCookies p
    → Told c
    → Completed p c c'
    → Told c'
      × (c.cookies.completed_cookie ≤ c'.cookies.completed_cookie)
      × (c'.cookies.cookie ≡ c.cookies.cookie)
Completed-Told p c c' q t d =
    let k' : Cookies = record c.cookies {
      completed_cookie = c.cookies.completed_cookie + length c.active_list;
    } in
    let noted : c'.cookies ≡ k' =
      d.cookies ∙ complete_cookies-upto p c.active_list (c.cookies) q t.plain_active t.running in
    let over = completed-ToldBy c.pending_list c.active_list c.done_list (c.cookies) t in
    let told : Told c' = elim d.next [
      | inl (a, w, _, _) ↦ rw (a, w, d.done, noted) over
      | inr (a, w, _, _, _, _) ↦
          rw (a, w, d.done, noted)
            (launched-ToldBy c.pending_list [] (c.done_list ++ c.active_list) k' over)
    ] in
    (told, ground arith, ground arith)

pub launched-Told : (c c' : Chan) → Told c → IsLaunched c c' → Told c'
launched-Told c c' t u =
    subst Told (sym u) (launched-ToldBy c.pending_list c.active_list c.done_list (c.cookies) t)

remaining-IsOver :
    (k : Cookies) (ds : List TxDesc)
    → All (IsOver k) (cookies_of ds)
    → All (IsOver k) (cookies_of (retired ds)) × All (IsOver k) (cookies_of (remaining ds))
remaining-IsOver k [] h = (tt, tt)
remaining-IsOver k (d ∷ ds) h =
    let (one, two) = remaining-IsOver k ds h.1 in
    elim (Bool-cases d.cyclic) [
      | inl yes_cyclic ↦ rw yes_cyclic (tt, h)
      | inr plain ↦ rw plain ((h.0, one), two)
    ]

-- The tasklet finishes cookies that are over.
pub cleanup-Told :
    (c : Chan)
    → Told c
    → Told (desc_cleanup c)
      × All (IsOver (c.cookies)) (cookies_of (retired c.done_list))
      × ((desc_cleanup c).cookies ≡ c.cookies)
cleanup-Told c t =
    let (back, left) = remaining-IsOver (c.cookies) c.done_list t.behind in
    let t' : ToldBy c.pending_list c.active_list (remaining c.done_list) c.cookies = record {
      plain_pending = t.plain_pending;
      plain_active = t.plain_active;
      running = t.running;
      waiting = t.waiting;
      last = t.last;
      behind = left;
    } in
    (
      subst Told (sym (desc_cleanup_lem c)) t',
      back,
      ap (λ (x : Chan). x.cookies) (desc_cleanup_lem c),
    )

-- A plain descriptor under a new cookie.
pub enqueued-Told :
    (p : Platform) (d : TxDesc) (c : Chan)
    → KeepsCookies p
    → IsPlainDesc d
    → c.cookies.cookie < max_cookie
    → Told c
    → Told (enqueued p d c)
enqueued-Told p d c q h room t =
    let next = q.assign (c.cookies) room in
    let before = linked (u32 d.phys) c.pending_list in
    let last : TxDesc = record d { cookie = c.cookies.cookie + 1 } in
    let s = c.cookies.completed_cookie + length c.active_list in
    let same : length before ≡ length c.pending_list =
      length-map_last (link_desc (u32 d.phys)) c.pending_list in
    let sum : length (before ++ last ∷ []) ≡ length c.pending_list + 1 =
      length-append before (last ∷ []) ∙ ap (λ x. x + 1) same in
    let given : c.cookies.cookie + 1 ≡ suc (s + length c.pending_list) = omega (arith, t.last) in
    rw next (record {
      plain_pending =
          All-append IsPlainDesc before (last ∷ [])
            (linked-plain (u32 d.phys) c.pending_list t.plain_pending) (h, tt);
      plain_active = t.plain_active;
      running = t.running;
      waiting =
          map-append (λ (x : TxDesc). x.cookie) before (last ∷ [])
          ∙ ap (λ l. l ++ (c.cookies.cookie + 1) ∷ [])
              (map-cookie-linked (u32 d.phys) c.pending_list ∙ t.waiting)
          ∙ ap (λ x. upto s (length c.pending_list) ++ x ∷ []) given
          ∙ upto-append s (length c.pending_list) 1
          ∙ ap (upto s) (sym sum);
      last = omega (arith, t.last, sum);
      behind = t.behind;
    })
