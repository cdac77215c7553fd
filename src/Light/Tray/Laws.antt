-- ===== src/Light/Tray/Laws.antt =====
-- Whether the tray shows what the client does.
use mathlib.Core.Path.{subst}
use readyfleet_lightagent.Base.{
  Error, false, ◌≡◌, ◌∙◌, inl, inr, Option, some, arith, Option-cases, Bool-cases,
}
use readyfleet_lightagent.Solarbeam.Manager.{Status}
use readyfleet_lightagent.Transport.Client.{
  Client, Move, set_paused, step, new_client, call_run, proceed, attempt_fails, attempt_connects,
  pump_ends, delay_elapses, pause, cancel,
}
use readyfleet_lightagent.Light.Tray.{
  LightTray, Assets, Event, click, ticks, moves, is_pause, toggle, tick, happen, new_light_tray,
  Reach, here, onward,
}

step-paused :
    (m : Move) (c d : Client) → is_pause m ≡ false → step m c ≡ some d → d.paused ≡ c.paused
unfolding step
step-paused call_run c d p h = ground arith
step-paused proceed c d p h = ground arith
step-paused (attempt_fails f) c d p h = ground arith
step-paused (attempt_connects now) c d p h = ground arith
step-paused (pump_ends e) c d p h = ground arith
step-paused delay_elapses c d p h = ground arith
step-paused (pause q) c d p h = absurd (ground arith)
step-paused cancel c d p h = ground arith

-- No connection has been made, and none shows.
abbrev Unconnected : Client → Type 0
Unconnected c = (c.stats.connect_count ≡ 0) × (c.stats.connected ≡ false)

pub record Inv (a : Assets) (t : LightTray) : Type 0 where
  pub agrees : t.client.paused ≡ t.paused
  pub fresh :
      t.client.stats.connect_count ≡ 0
      → (t.client.stats.connected ≡ false)
        × (t.last_connected ≡ false)
        × (t.icon ≡ a.connected_icon)

step-fresh :
    (m : Move) (c d : Client)
    → step m c ≡ some d
    → (c.stats.connect_count ≡ 0 → c.stats.connected ≡ false)
    → d.stats.connect_count ≡ 0
    → (c.stats.connect_count ≡ 0) × (d.stats.connected ≡ false)
unfolding step
step-fresh call_run c d h v z = ground arith
step-fresh proceed c d h v z = ground arith
step-fresh (attempt_fails f) c d h v z = ground arith
step-fresh (attempt_connects now) c d h v z = ground arith
step-fresh (pump_ends e) c d h v z = ground arith
step-fresh delay_elapses c d h v z = ground arith
step-fresh (pause q) c d h v z = ground arith
step-fresh cancel c d h v z = ground arith

toggle-Inv : (a : Assets) (t : LightTray) → Inv a t → Inv a (toggle t)
unfolding toggle set_paused
toggle-Inv a t v = ground arith

tick-Inv :
    (a : Assets) (f : Option Error) (sb : Status) (t : LightTray) → Inv a t → Inv a (tick a f sb t)
unfolding tick
tick-Inv a f sb t v = ground arith

happen-Inv : (a : Assets) (e : Event) (t u : LightTray) → happen a e t ≡ some u → Inv a t → Inv a u
unfolding happen
happen-Inv a click t u h v =
    let e : toggle t ≡ u = ground arith in subst (Inv a) e (toggle-Inv a t v)
happen-Inv a (ticks f sb) t u h v =
    let e : tick a f sb t ≡ u = ground arith in subst (Inv a) e (tick-Inv a f sb t v)
happen-Inv a (moves m) t u h v = elim (Bool-cases (is_pause m)) [
  | inl p ↦ absurd (ground arith)
  | inr p ↦ elim (Option-cases (step m t.client)) [
    | inl e ↦ absurd (ground arith)
    | inr (c, e) ↦
        let last : record t { client = c } ≡ u = ground arith in
        subst (Inv a) last (record {
          agrees = step-paused m t.client c p e ∙ v.agrees;
          fresh = λ z.
              let (z', down) = step-fresh m t.client c e (λ y. (v.fresh y).0) z in
              (down, (v.fresh z').1, (v.fresh z').2);
        })
  ]
]

Reach-Inv : (a : Assets) {t u : LightTray} → Inv a t → Reach a t u → Inv a u
Reach-Inv a v here = v
Reach-Inv a v (onward {u} {v = w} e r h) = happen-Inv a e u w h (Reach-Inv a v r)

new_light_tray-Inv : (a : Assets) → Inv a (new_light_tray a new_client)
unfolding new_light_tray new_client
new_light_tray-Inv a = ground arith

-- Whatever the user clicks and the client does, the toggle of the tray and the client agree on whether
-- the connection is paused.
pub toggle_agrees :
    (a : Assets) (t : LightTray)
    → Reach a (new_light_tray a new_client) t
    → t.client.paused ≡ t.paused
toggle_agrees a t r = (Reach-Inv a (new_light_tray-Inv a) r).agrees

-- Until a first connection is made, whatever happens, the tray shows the icon of a connection: it
-- starts with this icon, and the ticks change it only where the client's state changes.
pub unconnected_icon :
    (a : Assets) (t : LightTray)
    → Reach a (new_light_tray a new_client) t
    → t.client.stats.connect_count ≡ 0
    → (t.client.stats.connected ≡ false) × (t.icon ≡ a.connected_icon)
unconnected_icon a t r z =
    let (down, last, icon) = (Reach-Inv a (new_light_tray-Inv a) r).fresh z in (down, icon)
