-- ===== src/Update/Install.antt =====
-- update.go: `Apply`, `swap`, `Pending`, `Confirm`, `RollbackIfStale`, `Rollback` and `RolledBack`.
use text.Mathlib.Text.{starts_with}
use excubra.Prelude.{
  ℕ, ◌+◌, ◌*◌, String, Bool, true, false, not, ◌||◌, Option, none, some, map, ltb, ◌==◌,
  if◌then◌else◌, str_eq, length, take, ltb_ℤ, pos,
}
use excubra.GoTime.{minute, time_sub}
use excubra.GoText.{to_lower, trim_space, join}
use excubra.Sentinel.Frames.{hex_byte}
use excubra.Version.{Semver, parse, current}
use excubra.Update.Files.{
  binary, candidate, previous, pending_marker, pending_tmp, rolled_back_marker, rolled_back_tmp,
  Bytes, Disk, Pending, Platform, rename, remove, write_executable, write_json,
}

abbrev pub max_binary_size : ℕ
max_binary_size = 67_108_864

abbrev pub min_binary_size : ℕ
min_binary_size = 1_048_576

abbrev pub confirm_within : ℕ
confirm_within = 5 * minute

-- wire.UpdateInfo, of which `Apply` reads these.
pub record UpdateInfo : Type 0 where
  pub version : String
  pub url : String
  pub sha256 : String
  pub signature : String

-- The errors of an update, by the message.
pub data Reason : Type 0 where
  bad_version : Reason
  downgrade : Reason
  not_https : Reason
  no_key : Reason
  download_failed : Reason
  sha256_mismatch : Reason
  bad_signature : Reason
  write_failed : Reason
  trial_failed : Reason
  swap_failed : Reason
  marker_failed : Reason
  no_previous : Reason
  rollback_failed : Reason

-- `ErrRestart`, nil, or any other error.
pub data Outcome : Type 0 where
  restart : Outcome
  nothing : Outcome
  refused : Reason → Outcome

unfoldable pub newer : Semver → Semver → Bool
newer a b =
    if not (a.major == b.major)
    then ltb b.major a.major
    else if not (a.minor == b.minor)
    then ltb b.minor a.minor
    else ltb b.patch a.patch

abbrev pub hex : Bytes → String
hex bs = join "" (map hex_byte bs)

-- `EqualFold` of the hexadecimal checksum: its letters have no case but the ASCII one.
unfoldable pub checksum_matches : Platform → UpdateInfo → Bytes → Bool
checksum_matches h info blob =
    str_eq (to_lower (hex (h.sha256 blob))) (to_lower (trim_space info.sha256))

-- `none` for every error.
unfoldable pub download : Platform → String → Option Bytes
download h url = elim (h.fetch url) [
  | none ↦ none
  | some r ↦ if not (r.status == 200) then none else elim r.body [
    | none ↦ none
    | some b ↦
        let blob = take (max_binary_size + 1) b in
        if ltb max_binary_size (length blob) || ltb (length blob) min_binary_size
        then none
        else some blob
  ]
]

-- What `Apply` checks before it touches a file: an outcome, or the blob to install.
pub data Verdict : Type 0 where
  stop : Outcome → Verdict
  proceed : Bytes → Verdict

unfoldable pub same_version : Semver → Semver → Bool
same_version a b =
    if not (a.major == b.major)
    then false
    else if not (a.minor == b.minor)
    then false
    else a.patch == b.patch

unfoldable pub check_blob : Platform → UpdateInfo → (Bytes → String → Bool) → Bytes → Verdict
check_blob h info verify blob =
    if not (checksum_matches h info blob)
    then stop (refused sha256_mismatch)
    else if not (verify blob info.signature)
    then stop (refused bad_signature)
    else proceed blob

unfoldable pub check_source : Platform → UpdateInfo → Verdict
check_source h info =
    if not (starts_with info.url "https://") then stop (refused not_https) else elim h.verify [
      | none ↦ stop (refused no_key)
      | some verify ↦ elim (download h info.url) [
        | none ↦ stop (refused download_failed)
        | some blob ↦ check_blob h info verify blob
      ]
    ]

unfoldable pub check : Platform → UpdateInfo → Verdict
check h info = elim (parse info.version) [
  | none ↦ stop (refused bad_version)
  | some target ↦
      let cur = current h.version in
      if not (newer target cur)
      then if same_version target cur then stop nothing else stop (refused downgrade)
      else check_source h info
]

unfoldable pub swap : Platform → Disk → Bool × Disk
swap h d =
    let (aside, d1) = rename h binary previous (remove h previous d) in
    let (placed, d2) = rename h candidate binary d1 in
    let (back, d3) = rename h previous binary d2 in
    if not aside then (false, d1) else if not placed then (false, d3) else (true, d2)

-- From the trial run that passed to the restart.
unfoldable pub swap_in : Platform → UpdateInfo → Disk → Outcome × Disk
swap_in h info d =
    let (swapped, d1) = swap h d in
    let p : Pending = record { from = h.version; to = info.version; at = h.now } in
    let (marked, d2) = write_json h pending_tmp pending_marker p d1 in
    if not swapped
    then (refused swap_failed, remove h candidate d1)
    else if not marked
    then (refused marker_failed, d2)
    else (restart, d2)

unfoldable pub install : Platform → UpdateInfo → Bytes → Disk → Outcome × Disk
install h info blob d =
    let (wrote, d1) = write_executable h blob d in
    if not wrote
    then (refused write_failed, d1)
    else if not (h.trial (d1 candidate))
    then (refused trial_failed, remove h candidate d1)
    else swap_in h info d1

unfoldable pub apply : Platform → UpdateInfo → Disk → Outcome × Disk
apply h info d = elim (check h info) [ stop o ↦ (o, d) | proceed blob ↦ install h info blob d ]

-- The record in a marker, if it is there and reads.
abbrev pub read_marker : Platform → Option Bytes → Option Pending
read_marker h none = none
read_marker h (some b) = h.unmarshal b

unfoldable pub pending : Platform → Disk → Option Pending
pending h d = read_marker h (d pending_marker)

unfoldable pub confirm : Platform → Disk → Disk
confirm h d = remove h pending_marker d

unfoldable pub rollback : Platform → Pending → Disk → Outcome × Disk
rollback h p d = elim (d previous) [
  | none ↦ (refused no_previous, remove h pending_marker d)
  | some c ↦
      let (moved, d1) = rename h previous binary d in
      if not moved then (refused rollback_failed, d1) else (
        restart,
        (write_json h rolled_back_tmp rolled_back_marker p (remove h pending_marker d1)).1,
      )
]

unfoldable pub rollback_if_stale : Platform → Disk → Outcome × Disk
rollback_if_stale h d = elim (pending h d) [
  | none ↦ (nothing, d)
  | some p ↦
      let fresh = ltb_ℤ (time_sub h.now p.at) (pos confirm_within) in
      let back = rollback h p d in if fresh then (nothing, d) else back
]

-- Told once: the marker goes.
unfoldable pub rolled_back : Platform → Disk → Option Pending × Disk
rolled_back h d = elim (read_marker h (d rolled_back_marker)) [
  | none ↦ (none, d)
  | some p ↦ (some p, remove h rolled_back_marker d)
]
