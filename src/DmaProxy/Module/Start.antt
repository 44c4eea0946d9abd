-- ===== src/DmaProxy/Module/Start.antt =====
-- vdmaproxy/dma_proxy.c: what the two channels hold after the start of the module and after its end.
use petalinux_driver.Prelude.{◌≡◌, refl, sym, subst, arith, Bool, true, false, ◌&&◌, none}
use petalinux_driver.Kernel.{Errno, Code, code, neg, Result, ok, fault, Fault}
use petalinux_driver.DmaProxy.Module.{
  valid, pointer, Link, Class, Opening, use_class, class_destroy, create_class, create_node,
  cdevice_init, reach_device, allocate_interface, create_channel, Proxies, after_tx, dma_proxy_init,
  cdevice_exit, release_link, dma_proxy_exit,
}
use petalinux_driver.DmaProxy.Module.Channel.{
  unopened, loaded, open_link, Kept, Created, up, down, opening, with_class, first, next,
}

-- Nothing is held.
pub AllReleased : Proxies → Type 0
AllReleased m =
    (m.tx ≡ record unopened { class_p = m.tx.class_p; proxy_device_p = m.tx.proxy_device_p })
    × (m.rx ≡ record unopened { class_p = m.rx.class_p; proxy_device_p = m.rx.proxy_device_p })
    × (m.class_.alive ≡ false)

-- The ways a start can go.
pub data StartCase (cached_buffers : Bool) (r : Code) (m : Proxies) : Type 0 where
  started :
      (m' : Proxies)
      → r ≡ code 0
      → m.tx.node && m.rx.node ≡ true
      → dma_proxy_exit cached_buffers m ≡ ok m'
      → AllReleased m'
      → StartCase cached_buffers r m
  tx_failed : (e : Errno) → r ≡ neg e → Kept (m.tx) → m.rx ≡ unopened → StartCase cached_buffers r m
  rx_failed :
      (e : Errno) → r ≡ neg e → m.tx ≡ open_link valid → Kept (m.rx) → StartCase cached_buffers r m

up-exit :
    (c : Bool)
    → (m' : Proxies) × (dma_proxy_exit c
          (record { tx = open_link valid; rx = open_link valid; class_ = with_class })
        ≡ ok m')
      × AllReleased m'
unfolding AllReleased dma_proxy_exit cdevice_exit release_link use_class class_destroy
up-exit true = (_, refl, (refl, refl, refl))
up-exit false = (_, refl, (refl, refl, refl))

pub StartOf : Bool → Result (Code × Proxies) → Type 0
StartOf c r = (a : Code) × (m : Proxies) × (r ≡ ok (a, m)) × StartCase c a m

both_up :
    (c : Bool) (s : Class)
    → s ≡ with_class
    → StartCase c (code 0) (record { tx = open_link valid; rx = open_link valid; class_ = s })
both_up c s e =
    let (m', f, w) = up-exit c in
    subst
      (λ s'.
        StartCase c (code 0) (record { tx = open_link valid; rx = open_link valid; class_ = s' }))
      (sym e) (started m' refl refl f w)

second-StartOf :
    (c : Bool) (q : Opening) (r : Code) (x : Link) (s : Class)
    → create_channel c q unopened with_class ≡ ok (r, x, s)
    → Created valid r x s
    → StartOf c (after_tx c q unopened (code 0, open_link valid, with_class))
unfolding after_tx StartOf
second-StartOf c q r x s e (up f g h) = (
  code 0,
  record { tx = open_link valid; rx = open_link valid; class_ = s },
  rw (e, f, g),
  both_up c s h,
)
second-StartOf c q r x s e (down er f k) = (
  neg er,
  record { tx = open_link valid; rx = x; class_ = s },
  rw (e, f),
  rx_failed er refl refl k,
)

first-StartOf :
    (c : Bool) (q : Opening) (r : Code) (x : Link) (s : Class)
    → q.node_made ≡ true
    → Created valid r x s
    → StartOf c (after_tx c q unopened (r, x, s))
unfolding after_tx StartOf
first-StartOf c q r x s n (up f g h) =
    let (r', x', s', e, k) = next c q n in rw (f, g, h) (second-StartOf c q r' x' s' e k)
first-StartOf c q r x s n (down er f k) =
    rw f (neg er, record { tx = x; rx = unopened; class_ = s }, refl, tx_failed er refl k refl)

-- If the class and the device nodes can be made, the start of the module has a result, of one of
-- three kinds. It succeeds: both nodes are there, and the end of the module then has a result and
-- leaves nothing held. Or it fails at the transmit channel, which keeps nothing, its DMA channel
-- alone, or all but its memory, and the receive channel is untouched. Or it fails at the receive
-- channel, which keeps the same, and the transmit channel keeps all that it has.
pub dma_proxy_init-StartCase :
    (cached_buffers : Bool) (q_tx q_rx : Opening)
    → q_tx.class_made ≡ true
    → q_tx.node_made ≡ true
    → q_rx.node_made ≡ true
    → StartOf cached_buffers (dma_proxy_init cached_buffers q_tx q_rx loaded)
unfolding dma_proxy_init
dma_proxy_init-StartCase c q_tx q_rx k n n' =
    let (r, x, s, e, w) = first c q_tx k n in rw e (first-StartOf c q_rx r x s n' w)

-- The start of the transmit channel without its device node destroys the class that the receive
-- channel goes on to use.
pub dma_proxy_init_no_node :
    (cached_buffers : Bool) (q_rx : Opening)
    → q_rx.found ≡ true
    → q_rx.region_error ≡ none
    → q_rx.cdev_error ≡ none
    → dma_proxy_init cached_buffers
        (record (opening true none none false true) { node_made = false })
        q_rx
        loaded
      ≡ fault Fault.wild_access
unfolding dma_proxy_init create_channel cdevice_init create_class create_node use_class
    class_destroy allocate_interface reach_device pointer after_tx
dma_proxy_init_no_node true q h g k = ground arith
dma_proxy_init_no_node false q h g k = refl
