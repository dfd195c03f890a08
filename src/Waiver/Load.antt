-- ===== src/Waiver/Load.antt =====
-- What a loaded waiver file guarantees.
use rustproxmoxmcp.Prelude.{
  ℕ, ◌^◌, ◌<◌, ◌≡◌, refl, inl, inr, Bool, true, false, not, List, [], ◌∷◌, arith, Has, here, there,
  Has-cons, is_empty, eqb, Result, ok, >>=-eq-ok, ok-injective, map_err-eq-ok, refuse_if-eq-ok, ap,
  map_err, refuse_if,
}
use rustproxmoxmcp.Text.{Text}
use rustproxmoxmcp.Waiver.{
  ℤ, negsuc, as_u64, WaiverEntry, WaiverEntryRaw, WaiverFile, WaiverFileRaw, WaiverError,
  security_check, invalid_json, unsupported_version, empty, load, load_entry, load_entries,
  load_present,
}

module _ (parse_from_rfc3339 : Text → Result ℤ Text) where
  load_entry-ops :
      (raw : WaiverEntryRaw) (entry : WaiverEntry)
      → load_entry parse_from_rfc3339 raw ≡ ok entry
      → is_empty entry.ops ≡ false
  unfolding load_entry
  load_entry-ops raw entry h = ground arith

  -- A waiver that is loaded from a time stamp before 1970, in the 64 bits that a time stamp has, has
  -- not expired at any time before 2^63 seconds after 1970.
  pub load_entry_negative :
      (raw : WaiverEntryRaw) (entry : WaiverEntry) (n now : ℕ)
      → parse_from_rfc3339 raw.until ≡ ok (negsuc n)
      → load_entry parse_from_rfc3339 raw ≡ ok entry
      → n < 2 ^ 63
      → now < 2 ^ 63
      → now < entry.until_unix
  unfolding load_entry as_u64
  load_entry_negative raw entry n now p h k l = ground arith

  load_entries-Has :
      (raws : List WaiverEntryRaw) (entries : List WaiverEntry) {entry : WaiverEntry}
      → load_entries parse_from_rfc3339 raws ≡ ok entries
      → Has entry entries
      → (raw : WaiverEntryRaw) × Has raw raws × (load_entry parse_from_rfc3339 raw ≡ ok entry)
  unfolding load_entries
  load_entries-Has [] entries h m = absurd (none_loaded entries h m)
    where
      none_loaded :
          (entries : List WaiverEntry) {entry : WaiverEntry}
          → ◌≡◌ {A = Result (List WaiverEntry) WaiverError} (ok []) (ok entries)
          → Has entry entries
          → ⊥
      none_loaded [] h m = elim m [ ]
      none_loaded (e ∷ es) h m = cc
  load_entries-Has (raw ∷ raws) entries h m =
      let (first, e, more) = >>=-eq-ok (load_entry parse_from_rfc3339 raw) _ h in
      let (rest, f, done) = >>=-eq-ok (load_entries parse_from_rfc3339 raws) _ more in
      from_list first rest entries done e (load_entries-Has raws rest f) m
    where
      from_list :
          (first : WaiverEntry) (rest entries : List WaiverEntry) {entry : WaiverEntry}
          → ◌≡◌ {A = Result (List WaiverEntry) WaiverError} (ok (first ∷ rest)) (ok entries)
          → load_entry parse_from_rfc3339 raw ≡ ok first
          → (Has entry rest
              → (r : WaiverEntryRaw) × Has r raws × (load_entry parse_from_rfc3339 r ≡ ok entry))
          → Has entry entries
          → (r : WaiverEntryRaw) × Has r (raw ∷ raws) × (load_entry parse_from_rfc3339 r ≡ ok entry)
      from_list first rest entries done e ih m =
          let same : first ∷ rest ≡ entries = cc in
          elim (Has-cons (rw (← same) at m)) [
            | inl new ↦ (raw, here, rw new e)
            | inr old ↦ let (r, k, l) = ih old in (r, there k, l)
          ]

-- Where a loaded waiver comes from.
pub record IsLoaded {Bytes : Type 0} (parse_from_rfc3339 : Text → Result ℤ Text) (exists : Bool)
    (read_hardened_file : Result Bytes Text) (from_json : Bytes → Result WaiverFileRaw Text)
    (entry : WaiverEntry) : Type 0 where
  pub present : exists ≡ true
  pub contents : Bytes
  pub raw : WaiverFileRaw
  pub source : WaiverEntryRaw
  pub checked : read_hardened_file ≡ ok contents
  pub parsed : from_json contents ≡ ok raw
  pub version : raw.version ≡ 1
  pub listed : Has source raw.waivers
  pub converted : load_entry parse_from_rfc3339 source ≡ ok entry
  pub covers_some : is_empty entry.ops ≡ false

module _ {Bytes : Type 0} (parse_from_rfc3339 : Text → Result ℤ Text)
    (read_hardened_file : Result Bytes Text) (from_json : Bytes → Result WaiverFileRaw Text) where
  load_present-IsLoaded :
      (file : WaiverFile) {entry : WaiverEntry}
      → load_present parse_from_rfc3339 true read_hardened_file from_json ≡ ok file
      → Has entry file.waivers
      → IsLoaded parse_from_rfc3339 true read_hardened_file from_json entry
  unfolding load_present
  load_present-IsLoaded file h m =
      let (contents, read, h1) = >>=-eq-ok (map_err security_check read_hardened_file) _ h in
      let (raw, json, h2) = >>=-eq-ok (map_err invalid_json (from_json contents)) _ h1 in
      let (u, version, h3) =
        >>=-eq-ok (refuse_if (not (eqb raw.version 1)) (unsupported_version raw.version)) _ h2 in
      let (waivers, entries, h4) = >>=-eq-ok (load_entries parse_from_rfc3339 raw.waivers) _ h3 in
      let same = ap (λ (f : WaiverFile). f.waivers) (ok-injective h4) in
      let (source, listed, converted) =
        load_entries-Has parse_from_rfc3339 raw.waivers waivers entries (rw (← same) at m) in
      record {
        present = refl;
        contents = contents;
        raw = raw;
        source = source;
        checked = map_err-eq-ok security_check read_hardened_file read;
        parsed = map_err-eq-ok invalid_json (from_json contents) json;
        version = ground (arith, refuse_if-eq-ok (not (eqb raw.version 1)) _ version);
        listed = listed;
        converted = converted;
        covers_some = load_entry-ops parse_from_rfc3339 source _ converted;
      }

  not_loaded :
      (file : WaiverFile) {entry : WaiverEntry}
      → ◌≡◌ {A = Result WaiverFile WaiverError} (ok empty) (ok file)
      → Has entry file.waivers
      → ⊥
  not_loaded file h m = none_in (rw (← (ok-injective h)) at m)
    where
      none_in : {entry : WaiverEntry} → Has entry [] → ⊥
      none_in m = elim m [ ]

-- Every waiver of a loaded file comes from a file that is there, that the hardened reader let
-- through, that is of version 1, and that lists it with at least one operation.
pub load-IsLoaded :
    {Bytes : Type 0} (parse_from_rfc3339 : Text → Result ℤ Text) (exists : Bool)
    (read_hardened_file : Result Bytes Text) (from_json : Bytes → Result WaiverFileRaw Text)
    (file : WaiverFile) {entry : WaiverEntry}
    → load parse_from_rfc3339 exists read_hardened_file from_json ≡ ok file
    → Has entry file.waivers
    → IsLoaded parse_from_rfc3339 exists read_hardened_file from_json entry
unfolding load
load-IsLoaded parse_from_rfc3339 true read_hardened_file from_json file h m =
    load_present-IsLoaded parse_from_rfc3339 read_hardened_file from_json file h m
load-IsLoaded parse_from_rfc3339 false read_hardened_file from_json file h m =
    absurd (not_loaded parse_from_rfc3339 read_hardened_file from_json file h m)
