-- ===== src/Discovery/Keys.antt =====
-- The invariant of the table of sightings: every entry stands under its key, and what waits or is in flight has an entry.
use Prim.Native.String.{◌++◌ as ◌<>◌}
use excubra.Prelude.{
  ◌≡◌, inl, inr, refl, sym, ap, ◌∙◌, String, Bool, true, false, ◌&&◌, ◌||◌, List, [], ◌∷◌, arith,
  eq_iff, str_eq, contains, add, Bool-cases, Option-cases,
}
use excubra.GoMap.{
  Map, lookup, insert, Unique, lookup-insert, insert-Unique, insert-Entries, Entries-lookup,
}
use excubra.GoMap.Named.{is_some, Named}
use excubra.GoTime.{Time}
use excubra.Netip.{Netip}
use excubra.Discovery.Table.{
  Entry, key_of, key, Table, clean_mac, is_device, seen_entry, note_device, see, annotate_entry,
  annotate_keys, annotate, add_all, drain, ack, nack,
}

pub contains-add :
    (k x : String) (xs : List String) → contains k (add x xs) ≡ (str_eq x k || contains k xs)
contains-add k x xs = ground (arith, eq_iff x k)

pub contains-add_all :
    (k : String) (xs ys : List String)
    → contains k (add_all xs ys) ≡ (contains k xs || contains k ys)
contains-add_all k [] ys = refl
contains-add_all k (x ∷ xs) ys =
    contains-add k x (add_all xs ys) ∙ ground (arith, contains-add_all k xs ys)

-- The device under the key is to be reported: it is dirty or in flight.
abbrev pub unreported : Table → String → Bool
unreported t k = contains k t.dirty || contains k t.inflight

pub record WellFormed (t : Table) : Type 0 where
  pub unique : Unique t.entries
  pub named : Named key t.entries
  pub known : (k : String) → unreported t k ≡ true → is_some (lookup k t.entries) ≡ true

-- `net.ParseMAC` takes no text that begins like the key of an address.
abbrev pub NoIp : (String → Bool) → Type 0
NoIp mac_reads = (s : String) → mac_reads ("ip:" <> s) ≡ false

is_device-parts :
    (n : Netip) (mac_reads : String → Bool) (mac ip : String)
    → is_device n mac_reads mac ip ≡ true
    → ((str_eq mac "" && str_eq ip "") ≡ false) × ((str_eq mac "" || mac_reads mac) ≡ true)
unfolding is_device
is_device-parts n mac_reads mac ip fits = (ground arith, ground arith)

-- The entry of a device that is seen again stays under its key.
seen_entry-key :
    (t : Table) (mac_reads : String → Bool) (mac ip ip6 : String) (now : Time)
    → NoIp mac_reads
    → WellFormed t
    → (str_eq mac "" && str_eq ip "") ≡ false
    → (str_eq mac "" || mac_reads mac) ≡ true
    → key (seen_entry (lookup (key_of mac ip) t.entries) mac ip ip6 now) ≡ key_of mac ip
unfolding seen_entry
seen_entry-key t mac_reads mac ip ip6 now apart w named reads =
    elim (Option-cases (lookup (key_of mac ip) t.entries)) [
      | inl new ↦ rw new refl
      | inr (cur, old) ↦
          let here : key cur ≡ key_of mac ip =
            Entries-lookup (λ k e. key e ≡ k) (key_of mac ip) t.entries cur w.named old in
          rw old (elim (Bool-cases (str_eq cur.mac "")) [
            | inr mac_known ↦ rw mac_known (rw mac_known at here)
            | inl mac_unknown ↦ rw mac_unknown (elim (Bool-cases (str_eq mac "")) [
              | inl no_mac ↦ rw no_mac (ground arith)
              | inr with_mac ↦
                  let same : "ip:" <> cur.ip ≡ mac = rw (mac_unknown, with_mac) at here in
                  let taken : mac_reads mac ≡ true = ground arith in
                  cc (sym (apart cur.ip) ∙ ap mac_reads same ∙ taken)
            ])
          ])
    ]

-- One sighting: the key of the device waits afterwards, and every key that did.
note_device-WellFormed :
    (t : Table) (mac_reads : String → Bool) (mac ip ip6 : String) (now : Time)
    → NoIp mac_reads
    → WellFormed t
    → (str_eq mac "" && str_eq ip "") ≡ false
    → (str_eq mac "" || mac_reads mac) ≡ true
    → WellFormed (note_device t mac ip ip6 now)
      × ((k : String)
          → unreported (note_device t mac ip ip6 now) k
            ≡ (str_eq (key_of mac ip) k || unreported t k))
unfolding note_device
note_device-WellFormed t mac_reads mac ip ip6 now apart w named reads =
    let k = key_of mac ip in
    let e = seen_entry (lookup k t.entries) mac ip ip6 now in
    let same = seen_entry-key t mac_reads mac ip ip6 now apart w named reads in
    (
      record {
        unique = insert-Unique k e t.entries w.unique;
        named = insert-Entries (λ j v. key v ≡ j) k e t.entries same w.named;
        known = λ j h.
            ap is_some (lookup-insert k j e t.entries)
            ∙ ground (arith, w.known j, contains-add j (key e) t.dirty, same, eq_iff k j, h);
      },
      λ j. rw same (ground (arith, contains-add j k t.dirty)),
    )

pub see-WellFormed :
    (n : Netip) (mac_reads : String → Bool) (t : Table) (mac ip ip6 : String) (now : Time)
    → NoIp mac_reads
    → WellFormed t
    → WellFormed (see n mac_reads t mac ip ip6 now)
      × ((k : String)
          → unreported (see n mac_reads t mac ip ip6 now) k ≡ (
              is_device n mac_reads (clean_mac mac) ip && str_eq (key_of (clean_mac mac) ip) k
              || unreported t k))
unfolding see
see-WellFormed n mac_reads t mac ip ip6 now apart w =
    elim (Bool-cases (is_device n mac_reads (clean_mac mac) ip)) [
      | inr odd ↦ rw (odd, see) (w, λ k. refl)
      | inl fits ↦
          let (named, reads) = is_device-parts n mac_reads (clean_mac mac) ip fits in
          rw (fits, see)
            (note_device-WellFormed t mac_reads (clean_mac mac) ip ip6 now apart w named reads)
    ]

annotate_keys-kept :
    (vendor_of name_of : String → String) (ks : List String) (m : Map Entry)
    → Unique m
    → Named key m
    → Unique (annotate_keys vendor_of name_of ks m)
      × Named key (annotate_keys vendor_of name_of ks m)
      × ((k : String)
          → is_some (lookup k (annotate_keys vendor_of name_of ks m)) ≡ is_some (lookup k m))
unfolding annotate_keys annotate_entry
annotate_keys-kept vendor_of name_of [] m u e = (u, e, λ k. refl)
annotate_keys-kept vendor_of name_of (j ∷ ks) m u e = elim (Option-cases (lookup j m)) [
  | inl miss ↦ rw (miss, annotate_keys) (annotate_keys-kept vendor_of name_of ks m u e)
  | inr (x, hit) ↦ elim (Bool-cases (str_eq x.vendor "" || str_eq x.hostname "")) [
    | inr whole ↦ rw (hit, whole, annotate_keys) (annotate_keys-kept vendor_of name_of ks m u e)
    | inl bare ↦
        let y = annotate_entry vendor_of name_of x in
        let name = Entries-lookup (λ k v. key v ≡ k) j m x e hit in
        let (u1, e1, s1) =
          annotate_keys-kept vendor_of name_of ks (insert j y m) (insert-Unique j y m u)
            (insert-Entries (λ k v. key v ≡ k) j y m name e) in
        rw (hit, bare, annotate_keys)
          (
            u1,
            e1,
            λ k.
                s1 k
                ∙ ap is_some (lookup-insert j k y m)
                ∙ ground (arith, eq_iff j k, ap is_some hit),
          )
  ]
]

pub annotate-WellFormed :
    (vendor_of name_of : String → String) (t : Table)
    → WellFormed t
    → WellFormed (annotate vendor_of name_of t)
unfolding annotate
annotate-WellFormed vendor_of name_of t w =
    let (u, e, s) = annotate_keys-kept vendor_of name_of t.dirty t.entries w.unique w.named in
    record { unique = u; named = e; known = λ k h. s k ∙ w.known k h }

-- What waits after each of `Drain`, `Ack` and `Nack`.
pub drain-waits : (t : Table) (k : String) → unreported (drain t).0 k ≡ unreported t k
unfolding drain
drain-waits t k = contains-add_all k t.dirty t.inflight

pub nack-waits : (t : Table) (k : String) → unreported (nack t) k ≡ unreported t k
unfolding nack
nack-waits t k = ground (arith, contains-add_all k t.inflight t.dirty)

pub drain-WellFormed : (t : Table) → WellFormed t → WellFormed (drain t).0
unfolding drain
drain-WellFormed t w = record {
  unique = w.unique;
  named = w.named;
  known = λ k h. w.known k (sym (drain-waits t k) ∙ h);
}

pub nack-WellFormed : (t : Table) → WellFormed t → WellFormed (nack t)
unfolding nack
nack-WellFormed t w = record {
  unique = w.unique;
  named = w.named;
  known = λ k h. w.known k (sym (nack-waits t k) ∙ h);
}

pub ack-WellFormed : (t : Table) → WellFormed t → WellFormed (ack t)
unfolding ack
ack-WellFormed t w = record {
  unique = w.unique;
  named = w.named;
  known = λ k h. w.known k (ground (arith, h));
}
