-- ===== src/State/Silence.antt =====
-- Which boxes a tick declares silent.
use excubra.Prelude.{
  ℕ, suc, ◌+◌, ◌*◌, ◌^◌, ◌<◌, ◌≡◌, refl, sym, ap, ◌∙◌, inl, inr, String, false, ◌&&◌, Option, none,
  some, List, [], ◌∷◌, map, arith, eq_iff, str_eq, if◌then◌else◌, contains, All, leb, pos, quot,
  Bool-cases, Option-cases,
}
use mathlib.Core.Option
use excubra.GoMap.{lookup, lookup-insert}
use excubra.GoMap.Named.{Found}
use excubra.GoTime.{Time, time_sub}
use excubra.Event.{Event}
use excubra.State.Types.{
  Box, Machine, online, assigned, silence_after, silence_grace, missed_heartbeats_to_silent,
}
use excubra.State.Reconcile.{cons_event}
use excubra.State.Inputs.{overdue, silence, mark_silent, silent_event, silence_box}

-- A box that is online, with a heartbeat and a positive interval, is overdue exactly from three intervals and thirty seconds after its last
-- heartbeat, as long as that span is a duration.
pub overdue_from :
    (b : Box) (at n : ℕ)
    → b.status ≡ online
    → 0 < b.last_heartbeat
    → b.heartbeat_interval ≡ pos (suc n)
    → missed_heartbeats_to_silent * suc n + silence_grace < 2 ^ 63
    → overdue b at
      ≡ leb (b.last_heartbeat + (missed_heartbeats_to_silent * suc n + silence_grace)) at
unfolding overdue silence_after
overdue_from b at n s l hb fits = ground arith

-- The box after the silence loop.
unfoldable pub silenced : Time → Box → Box
silenced at b = if overdue b at then silence b else b

unfoldable pub notice : Time → Box → Option Event
notice at b =
    if overdue b at && assigned b
    then Option.map (silent_event b at) (quot (time_sub at b.last_heartbeat) b.heartbeat_interval)
    else none

abbrev pub notices : Time → List Box → List Event
notices at [] = []
notices at (b ∷ bs) = cons_event (notice at b) (notices at bs)

parts :
    (m m' : Machine) (x y : Option Event)
    → ◌≡◌ {A = Option (Machine × Option Event)} (some (m, x)) (some (m', y))
    → (m' ≡ m) × (y ≡ x)
parts m m' x y e = (
  ap (λ (r : Option (Machine × Option Event)). (Option.get_or r (m, x)).0) (sym e),
  ap (λ (r : Option (Machine × Option Event)). (Option.get_or r (m, x)).1) (sym e),
)

pub silence_box_result :
    (m m' : Machine) (b : Box) (at : Time) (ev : Option Event)
    → silence_box m b at ≡ some (m', ev)
    → (m' ≡ (if overdue b at then mark_silent m b else m)) × (ev ≡ notice at b)
unfolding silence_box notice
silence_box_result m m' b at ev e = elim (Bool-cases (overdue b at)) [
  | inr early ↦ rw early (parts m m' none ev (rw early at e))
  | inl late ↦ elim (Bool-cases (assigned b)) [
    | inr loose ↦ rw (late, loose) (parts (mark_silent m b) m' none ev (rw (late, loose) at e))
    | inl bound ↦ elim (Option-cases (quot (time_sub at b.last_heartbeat) b.heartbeat_interval)) [
      | inl panic ↦ cc (rw panic at (rw (late, bound) at e))
      | inr (q, fine) ↦
          rw (late, bound)
            (rw fine (
              parts (mark_silent m b) m' (some (silent_event b at q)) ev
                (rw fine at (rw (late, bound) at e))))
    ]
  ]
]

module _ (m m1 : Machine) (b : Box) (at : Time) (ev : Option Event)
    (e : silence_box m b at ≡ some (m1, ev)) where
  pub silence_box_lookup :
      (k : String)
      → lookup b.id m.boxes ≡ some b
      → lookup k m1.boxes ≡ (if str_eq b.id k then some (silenced at b) else lookup k m.boxes)
  unfolding silenced mark_silent
  silence_box_lookup k held =
      rw ((silence_box_result m m1 b at ev e).0) (elim (Bool-cases (overdue b at)) [
        | inl late ↦ rw (late, lookup-insert b.id k (silence b) m.boxes)
        | inr early ↦ rw early (elim (Bool-cases (str_eq b.id k)) [
          | inl hit ↦ rw (hit, ← (eq_iff b.id k).0 hit) held
          | inr miss ↦ rw miss
        ])
      ])

  pub silence_box_rest : (m1.hosts ≡ m.hosts) × (m1.maint ≡ m.maint)
  unfolding mark_silent
  silence_box_rest = rw ((silence_box_result m m1 b at ev e).0) (elim (Bool-cases (overdue b at)) [
    | inl late ↦ rw late (refl, refl)
    | inr early ↦ rw early (refl, refl)
  ])

abbrev pub box_ids : List Box → List String
box_ids = map (λ b. b.id)

abbrev pub Current : Machine → List Box → Type 0
Current m = All (Found (λ b. b.id) m.boxes)

pub Current-step :
    (m m1 : Machine) (b : Box) (at : Time) (ev : Option Event) (bs : List Box)
    → silence_box m b at ≡ some (m1, ev)
    → lookup b.id m.boxes ≡ some b
    → contains b.id (box_ids bs) ≡ false
    → Current m bs
    → Current m1 bs
Current-step m m1 b at ev [] e held c cur = tt
Current-step m m1 b at ev (x ∷ bs) e held c cur =
    let apart : str_eq b.id x.id ≡ false = ground (arith, eq_iff b.id x.id, eq_iff x.id b.id) in
    (
      silence_box_lookup m m1 b at ev e x.id held ∙ rw apart cur.0,
      Current-step m m1 b at ev bs e held (ground arith) cur.1,
    )
