-- ===== src/Update/Tests.antt =====
-- Runs of the self-update, and the theorems at concrete machines. The blob is the smallest that
-- `download` lets through.
use excubra.Prelude.{
  ℕ, zero, suc, ◌+◌, ◌*◌, ◌≡◌, refl, ap, Bool, true, false, not, ◌&&◌, none, some, [], ◌∷◌, arith,
  if◌then◌else◌, length, take_all, str_eq,
}
use excubra.GoTime.{minute}
use excubra.Version.{parse, parse_parts, current}
use excubra.Update.Files.{
  binary, previous, pending_marker, pending_tmp, same_file, Bytes, Disk, complete, broken, Platform,
  rename, remove, write_executable, write_json,
}
use excubra.Update.Install.{
  UpdateInfo, restart, refused, marker_failed, trial_failed, newer, checksum_matches, download,
  check_blob, check_source, check, proceed, swap, swap_in, install, apply, pending,
  rollback_if_stale, rolled_back, max_binary_size, min_binary_size,
}
use excubra.Update.Outcomes.{
  Cleared, marker_of, apply_keeps, apply_installs, marker_failure_replaces,
}
use excubra.Update.Back.{Sound, stale_update_returns}

unfoldable zeros : ℕ → Bytes
zeros zero = []
zeros (suc n) = 0 ∷ zeros n

length-zeros : (n : ℕ) → length (zeros n) ≡ n
unfolding zeros
length-zeros zero = refl
length-zeros (suc n) = ap suc (length-zeros n)

abbrev info : UpdateInfo
info = record {
  version = "v1.3.0";
  url = "https://example.org/agent";
  sha256 = " AB ";
  signature = "signed";
}

-- A machine that serves the blob; the trial run and the write of the marker go as told.
abbrev machine : Bytes → Bool → Bool → Platform
machine blob passes marks = record {
  version = "1.2.9";
  now = 10 * minute;
  fetch = λ url. some (record { status = 200; body = some blob });
  sha256 = λ b. 171 ∷ [];
  verify = some (λ b s. str_eq s "signed");
  trial = λ c. passes;
  write = λ f b. if same_file f pending_tmp && not marks then broken none else complete;
  rename_fails = λ f g. false;
  remove_fails = λ f. false;
  marshal = λ p. some (p.at ∷ []);
  unmarshal = λ b. some (record { from = "1.2.9"; to = "v1.3.0"; at = 10 * minute });
}

abbrev disk : Disk
disk binary = some (1 ∷ [])
disk f = none

clears :
    (blob : Bytes) (passes marks : Bool)
    → length blob ≡ min_binary_size
    → check (machine blob passes marks) info ≡ proceed blob
unfolding check check_source check_blob download checksum_matches newer parse parse_parts current
clears blob passes marks e = rw (take_all (max_binary_size + 1) blob (omega (arith, e)), e) refl

ends :
    (blob : Bytes) (passes marks : Bool)
    → length blob ≡ min_binary_size
    → (apply (machine blob passes marks) info disk).0
      ≡ (if passes then if marks then restart else refused marker_failed else refused trial_failed)
unfolding apply install swap_in swap write_executable write_json rename remove
ends blob false marks e = rw (clears blob false marks e, apply) refl
ends blob true false e = rw (clears blob true false e, apply) refl
ends blob true true e = rw (clears blob true true e, apply) refl

abbrev none_runs : Disk
none_runs f = none

-- Opaque, since the runs need no more of the blob than its length.
unfoldable smallest : Bytes
unfolding zeros
smallest = zeros 1_048_576

smallest_lem : length smallest ≡ min_binary_size
unfolding smallest
smallest_lem = length-zeros 1_048_576

abbrev sound : Platform
sound = machine smallest true true

restarts : (apply sound info disk).0 ≡ restart
restarts = ends smallest true true smallest_lem

fails_trial : (apply (machine smallest false true) info disk).0 ≡ refused trial_failed
fails_trial = ends smallest false true smallest_lem

fails_marker : (apply (machine smallest true false) info disk).0 ≡ refused marker_failed
fails_marker = ends smallest true false smallest_lem

sound-Sound : Sound sound (marker_of sound info)
sound-Sound = record {
  writes = λ f b. ground arith;
  renames = λ f g. refl;
  removes = λ f. refl;
  marshals = (10 * minute ∷ [], refl);
  reads_back = λ b e. refl;
}

apply_keeps_example : (apply (machine smallest false true) info disk).1 binary ≡ some (1 ∷ [])
apply_keeps_example =
    apply_keeps (machine smallest false true) info disk refl (λ e. cc (fails_trial, e))
      (λ e. cc (fails_trial, e))

apply_installs_example :
    (blob : Bytes) × Cleared sound info blob
    × (true ≡ true)
    × ((apply sound info disk).1 binary ≡ some blob)
    × ((apply sound info disk).1 previous ≡ some (1 ∷ []))
    × (b : Bytes) × (some (10 * minute ∷ []) ≡ some b)
    × ((apply sound info disk).1 pending_marker ≡ some b)
apply_installs_example = apply_installs sound info disk restarts

marker_failure_replaces_example :
    (blob : Bytes) × Cleared (machine smallest true false) info blob
    × (true ≡ true)
    × ((apply (machine smallest true false) info disk).1 binary ≡ some blob)
    × ((apply (machine smallest true false) info disk).1 previous ≡ some (1 ∷ []))
marker_failure_replaces_example =
    marker_failure_replaces (machine smallest true false) info disk fails_marker

stale_update_returns_example :
    let later : Platform = record sound { version = "v1.3.0"; now = 15 * minute } in
    let (outcome, files) = rollback_if_stale later (apply sound info disk).1 in
    let (report, told) = rolled_back later files in
    (outcome ≡ restart)
    × (files binary ≡ some (1 ∷ []))
    × (pending later files ≡ none)
    × (report ≡ some (marker_of sound info))
    × ((rolled_back later told).0 ≡ none)
stale_update_returns_example =
    stale_update_returns sound info disk (1 ∷ []) "v1.3.0" (15 * minute) sound-Sound refl restarts
      refl
