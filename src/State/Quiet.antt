-- ===== src/State/Quiet.antt =====
-- A second tick at the same time has nothing to add.
use excubra.Prelude.{
  ◌≡◌, refl, sym, ap, subst, ◌∙◌, inl, inr, String, true, false, Option, none, some, List, [], ◌∷◌,
  All, All-imp, Bool-cases, some_inj,
}
use mathlib.Core.Option
use excubra.GoMap.{lookup}
use excubra.GoTime.{Time, after}
use excubra.Event.{Event}
use excubra.State.Types.{Box, Maintenance, Machine}
use excubra.State.Inputs.{
  expire, overdue, silence, silence_box, silence_boxes, reconcile_touched, sorted_boxes,
  sorted_maint, tick,
}
use excubra.State.Wellformed.{WellFormed}
use excubra.State.Totality.{tick_total}
use excubra.State.Silence.{silenced}
use excubra.State.Ticks.{running, tick_lookups, boxes_Current, windows_Found}

running-after :
    (at : Time) (o : Option Maintenance) (w : Maintenance)
    → running at o ≡ some w
    → after w.until at ≡ true
running-after at none w e = cc
running-after at (some u) w e = elim (Bool-cases (after u.until at)) [
  | inl late ↦ ap (λ (x : Maintenance). after x.until at) (sym (some_inj (rw late at e))) ∙ late
  | inr past ↦ cc (rw past at e)
]

overdue-silence : (b : Box) (at : Time) → overdue (silence b) at ≡ false
unfolding overdue silence
overdue-silence b at = refl

overdue-silenced : (b : Box) (at : Time) → overdue (silenced at b) at ≡ false
unfolding silenced
overdue-silenced b at = elim (Bool-cases (overdue b at)) [
  | inl late ↦ rw late (overdue-silence b at)
  | inr early ↦ rw early early
]

silenced_calm :
    (at : Time) (o : Option Box) (b : Box)
    → Option.map (silenced at) o ≡ some b
    → overdue b at ≡ false
silenced_calm at none b e = cc
silenced_calm at (some c) b e =
    ap (λ (x : Box). overdue x at) (sym (some_inj e)) ∙ overdue-silenced c at

expire_nothing :
    (m : Machine) (ws : List Maintenance) (at : Time) (touched : List String)
    → All (λ (w : Maintenance). after w.until at ≡ true) ws
    → expire m ws at touched ≡ (m, [], touched)
unfolding expire
expire_nothing m [] at touched a = refl
expire_nothing m (w ∷ ws) at touched a = rw (a.0, expire) (expire_nothing m ws at touched a.1)

silence_nothing :
    (m : Machine) (bs : List Box) (at : Time)
    → All (λ (b : Box). overdue b at ≡ false) bs
    → silence_boxes m bs at ≡ some (m, [])
unfolding silence_boxes silence_box
silence_nothing m [] at a = refl
silence_nothing m (b ∷ bs) at a = rw (a.0, silence_boxes) (rw (silence_nothing m bs at a.1))

quiet_tick :
    (m : Machine) (at : Time)
    → All (λ (w : Maintenance). after w.until at ≡ true) (sorted_maint m)
    → All (λ (b : Box). overdue b at ≡ false) (sorted_boxes m)
    → tick m at ≡ some (m, [])
unfolding tick reconcile_touched
quiet_tick m at ws bs =
    rw (expire_nothing m (sorted_maint m) at [] ws) (rw (silence_nothing m (sorted_boxes m) at bs))

-- After a tick of a well-formed machine that returns, another one at the same time changes nothing and returns no event.
pub tick_twice :
    (m m' : Machine) (at : Time) (evs : List Event)
    → WellFormed m
    → tick m at ≡ some (m', evs)
    → tick m' at ≡ some (m', [])
tick_twice m m' at evs v e =
    let (boxes, windows) = tick_lookups m m' at evs v e in
    let (p, qs, total, w) = tick_total m at v in
    let same : p ≡ m' = ap (λ (r : Machine × List Event). r.0) (some_inj (sym total ∙ e)) in
    let v' = subst WellFormed same w in
    quiet_tick m' at
      (All-imp _ _ (sorted_maint m')
        (λ x f. running-after at (lookup x.id m.maint) x (sym (windows x.id) ∙ f))
        (windows_Found m' v'))
      (All-imp _ _ (sorted_boxes m')
        (λ x f. silenced_calm at (lookup x.id m.boxes) x (sym (boxes x.id) ∙ f))
        (boxes_Current m' v'))
