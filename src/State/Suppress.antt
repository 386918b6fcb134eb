-- ===== src/State/Suppress.antt =====
-- state.go: maintenance cover, the walk along the uplinks, and why a host's events are held back.
use excubra.Prelude.{
  ℕ, zero, suc, String, Bool, true, false, ◌||◌, Option, none, some, List, [], ◌∷◌, str_eq,
  if◌then◌else◌, length, contains, ◌+◌,
}
use Prim.Native.String.{◌++◌}
use mathlib.Core.Option.{get_or}
use excubra.GoMap.{Map, lookup, values}
use excubra.State.Types.{
  Box, Host, Maintenance, Machine, tenant, site, host, other, is_down, is_silent,
}

abbrev pub covers_box : String → (Box → String) → Option Box → Bool
covers_box target field none = false
covers_box target field (some b) = str_eq (field b) target

unfoldable pub window_covers : Machine → Maintenance → Host → Bool
window_covers m w h = elim w.scope [
  | host ↦ str_eq w.target_id h.id
  | site ↦ covers_box w.target_id (λ b. b.site_id) (lookup h.box_id m.boxes)
  | tenant ↦ covers_box w.target_id (λ b. b.tenant_id) (lookup h.box_id m.boxes)
  | other s ↦ false
]

abbrev pub any_covers : Machine → Host → List Maintenance → Bool
any_covers m h [] = false
any_covers m h (w ∷ ws) = window_covers m w h || any_covers m h ws

unfoldable pub in_maintenance : Machine → Host → Bool
in_maintenance m h = any_covers m h (values m.maint)

-- The loop of `downAncestor`, one round for each unit of fuel; `none` when it runs out.
unfoldable pub walk : Map Host → ℕ → List String → String → Option String
walk hosts zero seen pid = none
walk hosts (suc fuel) seen pid = elim (str_eq pid "" || contains pid seen) [
  | true ↦ some ""
  | false ↦ elim (lookup pid hosts) [
    | none ↦ some ""
    | some p ↦ elim (is_down p.observed) [
      | true ↦ some p.id
      | false ↦ walk hosts fuel (pid ∷ seen) p.parent_id
    ]
  ]
]

-- Every round marks another host as seen, so one round more than there are hosts is enough.
unfoldable pub down_ancestor : Machine → Host → String
unfolding walk
down_ancestor m h = get_or (walk m.hosts (suc (length m.hosts)) (h.id ∷ []) h.parent_id) ""

-- The loop of `depth`.
unfoldable pub climb : Map Host → ℕ → List String → String → ℕ → Option ℕ
climb hosts zero seen pid d = none
climb hosts (suc fuel) seen pid d = elim (str_eq pid "" || contains pid seen) [
  | true ↦ some d
  | false ↦ elim (lookup pid hosts) [
    | none ↦ some d
    | some p ↦ climb hosts fuel (pid ∷ seen) p.parent_id (d + 1)
  ]
]

unfoldable pub depth : Machine → Host → ℕ
unfolding climb
depth m h = get_or (climb m.hosts (suc (length m.hosts)) (h.id ∷ []) h.parent_id 0) 0

pub data Suppression : Type 0 where
  free box_silent maintenance : Suppression
  uplink : String → Suppression

-- The strings of the source.
unfoldable pub reason_text : Suppression → String
reason_text free = ""
reason_text box_silent = "box_silent"
reason_text maintenance = "maintenance"
reason_text (uplink id) = "uplink:" ++ id

abbrev pub is_free : Suppression → Bool
is_free free = true
is_free _ = false

abbrev pub silent_box : Option Box → Bool
silent_box none = false
silent_box (some b) = is_silent b.status

unfoldable pub suppressed : Machine → Host → Suppression
suppressed m h =
    if silent_box (lookup h.box_id m.boxes)
    then box_silent
    else if in_maintenance m h
    then maintenance
    else let id = down_ancestor m h in if str_eq id "" then free else uplink id
