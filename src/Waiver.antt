-- ===== src/Waiver.antt =====
-- crates/rust-proxmoxmcp-core/src/waiver.rs: the operator's time-boxed waivers. Reading the file,
-- its JSON and its time stamps belong to other libraries, and are parameters.
pub mod Match
pub mod Load
use rustproxmoxmcp.Prelude.{
  ℕ, zero, suc, ◌+◌, ◌-◌, ◌^◌, ◌%◌, Bool, true, false, not, ◌&&◌, Option, none, some, List, [], ◌∷◌,
  any, find, is_empty, ltb, eqb, if◌then◌else◌, Result, ok, err, ◌>>=◌, ◌>>◌, refuse_if, map_err,
}
use rustproxmoxmcp.Text.{Text, codes, ◌==◌}

-- `i64`: `negsuc n` is -(n + 1).
pub data ℤ : Type 0 where
  pos negsuc : ℕ → ℤ

-- `seconds as u64`
unfoldable pub as_u64 : ℤ → ℕ
as_u64 (pos n) = n % 2 ^ 64
as_u64 (negsuc n) = (2 ^ 64 - 1 - n) % 2 ^ 64

pub record WaiverEntry : Type 0 where
  pub cluster : Text
  pub vmid : ℕ
  pub until_unix : ℕ
  pub reason : Text
  pub ticket : Option Text
  pub ops : List Text
  pub principal : Option Text

pub record WaiverFile : Type 0 where
  pub waivers : List WaiverEntry

pub record WaiverEntryRaw : Type 0 where
  pub cluster : Text
  pub vmid : ℕ
  pub until : Text
  pub reason : Text
  pub ticket : Option Text
  pub ops : List Text
  pub principal : Option Text

pub record WaiverFileRaw : Type 0 where
  pub version : ℕ
  pub waivers : List WaiverEntryRaw

pub data WaiverError : Type 0 where
  security_check invalid_json invalid_timestamp : Text → WaiverError
  unsupported_version : ℕ → WaiverError
  empty_ops : Text → ℕ → WaiverError

-- `WaiverFile::empty`
abbrev pub empty : WaiverFile
empty = record { waivers = [] }

-- `is_none_or(|bound| Some(bound) == principal)`
bound_admits : Option Text → Option Text → Bool
bound_admits none principal = true
bound_admits (some bound) none = false
bound_admits (some bound) (some name) = bound == name

unfoldable pub admits : Text → ℕ → ℕ → Text → Option Text → WaiverEntry → Bool
unfolding bound_admits
admits cluster vmid now op principal entry =
    entry.cluster == cluster
    && eqb entry.vmid vmid
    && ltb now entry.until_unix
    && any (λ allowed. allowed == op) entry.ops
    && bound_admits entry.principal principal

-- `WaiverFile::matching`
unfoldable pub matching : WaiverFile → Text → ℕ → ℕ → Text → Option Text → Option WaiverEntry
matching file cluster vmid now op principal =
    find (admits cluster vmid now op principal) file.waivers

module _ (parse_from_rfc3339 : Text → Result ℤ Text) where
  unfoldable pub load_entry : WaiverEntryRaw → Result WaiverEntry WaiverError
  load_entry entry = do
    refuse_if (is_empty entry.ops) (empty_ops entry.cluster entry.vmid)
    until ← map_err invalid_timestamp (parse_from_rfc3339 entry.until)
    ok (record {
      cluster = entry.cluster;
      vmid = entry.vmid;
      until_unix = as_u64 until;
      reason = entry.reason;
      ticket = entry.ticket;
      ops = entry.ops;
      principal = entry.principal;
    })

  -- `collect::<Result<Vec<_>, _>>()`: the first error ends it
  load_entries : List WaiverEntryRaw → Result (List WaiverEntry) WaiverError
  load_entries [] = ok []
  load_entries (entry ∷ entries) =
      let rest = load_entries entries in
      do waiver ← load_entry entry; waivers ← rest; ok (waiver ∷ waivers)

  module _ {Bytes : Type 0} (exists : Bool) (read_hardened_file : Result Bytes Text)
      (from_json : Bytes → Result WaiverFileRaw Text) where
    load_present : Result WaiverFile WaiverError
    load_present = do
      contents ← map_err security_check read_hardened_file
      raw ← map_err invalid_json (from_json contents)
      refuse_if (not (eqb raw.version 1)) (unsupported_version raw.version)
      waivers ← load_entries raw.waivers
      ok (record { waivers = waivers })

    -- `WaiverFile::load`
    unfoldable pub load : Result WaiverFile WaiverError
    unfolding load_present load_entries load_entry
    load = if exists then load_present else ok empty
