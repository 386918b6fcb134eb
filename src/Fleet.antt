-- ===== src/Fleet.antt =====
-- internal/server/selfupdate/fleet.go: the boxes that hold a release back. What the store answers is
-- an argument; `none` stands for its error.
use Prim.Native.String.{◌++◌ as ◌<>◌}
use excubra.Prelude.{
  ℕ, ◌+◌, ◌*◌, ◌≡◌, ap, inl, inr, String, Bool, true, false, not, ◌&&◌, ◌||◌, Option, none, some,
  List, [], ◌∷◌, str_eq, if◌then◌else◌, pos, ltb_ℤ, map, All, Bool-cases, ◌>>=◌,
}
use mathlib.Core.Option
use excubra.GoTime.{Time, hour, is_zero, time_sub}
use excubra.Wire.{task_update}
use excubra.Version.{Semver, parse, compatible}

abbrev pub stale_after : ℕ
stale_after = 14 * (24 * hour)

abbrev pub nudge_good_for : ℕ
nudge_good_for = 6 * hour

-- The columns of `store.Box` that are read.
pub record BoxRow : Type 0 where
  pub id : String
  pub name : String
  pub agent_version : String
  pub revoked_at : Option Time
  pub last_seen : Time

pub record Lagging : Type 0 where
  pub id : String
  pub name : String
  pub version : String

pub record BoxTask : Type 0 where
  pub box_id : String
  pub kind : String
  pub issued_at : Time
  pub issued_by : String
  pub expires_at : Time

abbrev pub is_set {ℓ} : {A : Type ℓ} → Option A → Bool
is_set none = false
is_set (some a) = true

-- Whether a box counts.
unfoldable pub counts : BoxRow → Time → Bool
counts b now =
    not (is_set b.revoked_at || str_eq b.agent_version "")
    && not (is_zero b.last_seen || ltb_ℤ (pos stale_after) (time_sub now b.last_seen))

unfoldable pub lags : BoxRow → Semver → Bool
lags b target = elim (parse b.agent_version) [ none ↦ false | some av ↦ not (compatible av target) ]

abbrev pub lagging_of : BoxRow → Lagging
lagging_of b = record {
  id = b.id;
  name = if str_eq b.name "" then b.id else b.name;
  version = b.agent_version;
}

unfoldable pub behind_among : List BoxRow → Semver → Time → List Lagging
behind_among [] target now = []
behind_among (b ∷ bs) target now =
    let rest = behind_among bs target now in
    if counts b now && lags b target then lagging_of b ∷ rest else rest

unfoldable pub behind : Option (List BoxRow) → Semver → Time → Option (List Lagging)
behind boxes target now = do bs ← boxes; some (behind_among bs target now)

abbrev pub waits : List BoxTask → Bool
waits [] = false
waits (t ∷ ts) = str_eq t.kind task_update || waits ts

abbrev pub update_task : String → Time → BoxTask
update_task id now = record {
  box_id = id;
  kind = task_update;
  issued_at = now;
  issued_by = "server";
  expires_at = now + nudge_good_for;
}

-- The tasks that `nudge` asks the store to create, for the tasks that it finds pending.
unfoldable pub nudge : (String → Option (List BoxTask)) → List Lagging → Time → List BoxTask
nudge pending [] now = []
nudge pending (l ∷ ls) now =
    let rest = nudge pending ls now in
    elim (pending l.id) [
      | none ↦ rest
      | some ts ↦ if waits ts then rest else update_task l.id now ∷ rest
    ]

unfoldable pub names : List Lagging → List String
names = map (λ l. l.name <> (" (" <> (l.version <> ")")))

-- A box that a release leaves within the window, or that does not count.
abbrev pub Reached : Semver → Time → BoxRow → Type 0
Reached target now b = (counts b now && lags b target) ≡ false

All-Reached :
    (bs : List BoxRow) (target : Semver) (now : Time)
    → behind_among bs target now ≡ []
    → All (Reached target now) bs
unfolding behind_among
All-Reached [] target now e = tt
All-Reached (b ∷ bs) target now e = elim (Bool-cases (counts b now && lags b target)) [
  | inl lag ↦ cc (rw (lag, behind_among) at e)
  | inr fine ↦ (fine, All-Reached bs target now (rw (fine, behind_among) at e))
]

-- If `behind` finds nothing that holds a release back, then every box that counts and whose version
-- parses is compatible with it.
pub behind_none :
    (bs : List BoxRow) (target : Semver) (now : Time)
    → behind (some bs) target now ≡ some []
    → All (Reached target now) bs
unfolding behind
behind_none bs target now e =
    All-Reached bs target now (ap (λ (r : Option (List Lagging)). Option.get_or r []) e)
