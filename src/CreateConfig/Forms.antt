-- ===== src/CreateConfig/Forms.antt =====
-- The keys and values that a create accepts, spelled out
-- (crates/rust-proxmoxmcp/src/server/mod.rs).
use rustproxmoxmcp.Prelude.{
  ◌≡◌, ◌↔◌, ◌⊎◌, refl, inl, inr, Bool, true, false, ◌||◌, List, [], ◌∷◌, ◌++◌, arith, any, all,
  is_empty, eqb, Bool-cases, Option-cases, Has, Has-of-any, any-of-Has, ok, is_ok, Result, err,
}
use rustproxmoxmcp.Text.{Text, codes, ◌==◌, is_digit, split, split_once, trim, to_ascii_lowercase}
use rustproxmoxmcp.Text.Equality.{contains_iff, eq_iff}
use rustproxmoxmcp.Text.Pieces.{lacks, split_once_at, split_once-none}
use rustproxmoxmcp.Text.Prefix.{starts_with_iff, split_once_iff, split_once-lacks}
use rustproxmoxmcp.Error.{ProxmoxError}
use rustproxmoxmcp.Volume.{validate_volid_kind}
use rustproxmoxmcp.Volume.Laws.{IsVolid, validate_volid_kind_iff}
use rustproxmoxmcp.VmConfig.Forms.{IsNumbered, is_index_iff, or_iff}
use rustproxmoxmcp.CreateConfig.{
  allowed_create_config_keys, allowed_create_config_prefixes, create_disk_key_prefixes,
  create_disk_key_exact, is_create_disk_key, is_allowed_create_config_key, option_key, names_source,
  is_size, allocates, contains_volume_reference, disk_value_is_new_allocation, is_cloudinit, is_iso,
  disk_value_is_allowed_media,
}
use rustproxmoxmcp.CreateConfig.Values.{NamesVolume}
use rustproxmoxmcp.CreateConfig.Volumes.{contains_volume_reference_iff}

-- The keys of disks, in lower case.
abbrev pub IsDiskKey : Text → Type 0
IsDiskKey lower =
    Has lower (codes "rootfs" ∷ codes "efidisk0" ∷ codes "tpmstate0" ∷ [])
    ⊎ (IsNumbered (codes "scsi") lower
        ⊎ (IsNumbered (codes "ide") lower
            ⊎ (IsNumbered (codes "sata") lower ⊎ IsNumbered (codes "virtio") lower)))

false_iff : {A : Type 0} (a : Bool) → (a ≡ true) ↔ A → ((a || false) ≡ true) ↔ A
false_iff a f = (λ h. f.0 (ground (arith, h)), λ x. let e = f.1 x in ground (arith, e))

pub is_create_disk_key_iff : (lower : Text) → (is_create_disk_key lower ≡ true) ↔ IsDiskKey lower
unfolding is_create_disk_key create_disk_key_exact create_disk_key_prefixes
is_create_disk_key_iff lower = or_iff _ _ (contains_iff _ lower) (
    or_iff _ _ (is_index_iff (codes "scsi") lower) (
      or_iff _ _ (is_index_iff (codes "ide") lower) (
        or_iff _ _ (is_index_iff (codes "sata") lower)
          (false_iff _ (is_index_iff (codes "virtio") lower)))))

-- The keys that a create may set and that stand for themselves, in lower case.
abbrev pub create_keys : List Text
create_keys =
    codes "ciuser"
    ∷ codes "sshkeys"
    ∷ codes "nameserver"
    ∷ codes "searchdomain"
    ∷ codes "citype"
    ∷ codes "ciupgrade"
    ∷ codes "cores"
    ∷ codes "sockets"
    ∷ codes "memory"
    ∷ codes "balloon"
    ∷ codes "cpu"
    ∷ codes "numa"
    ∷ codes "swap"
    ∷ codes "name"
    ∷ codes "hostname"
    ∷ codes "description"
    ∷ codes "tags"
    ∷ codes "onboot"
    ∷ codes "startup"
    ∷ codes "agent"
    ∷ codes "ostype"
    ∷ codes "arch"
    ∷ codes "bios"
    ∷ codes "scsihw"
    ∷ codes "boot"
    ∷ codes "machine"
    ∷ codes "vga"
    ∷ codes "features"
    ∷ codes "unprivileged"
    ∷ codes "ostemplate"
    ∷ codes "storage"
    ∷ codes "ssh-public-keys"
    ∷ []

-- A key that a create may set: one of these, one that begins with `ipconfig` or `net`, or a disk.
abbrev pub IsCreateKey : Text → Type 0
IsCreateKey lower =
    Has lower create_keys
    ⊎ ((((rest : Text) × (lower ≡ codes "ipconfig" ++ rest))
          ⊎ ((rest : Text) × (lower ≡ codes "net" ++ rest)))
        ⊎ IsDiskKey lower)

pub is_allowed_create_config_key_iff :
    (key : Text) → (is_allowed_create_config_key key ≡ true) ↔ IsCreateKey (to_ascii_lowercase key)
unfolding is_allowed_create_config_key allowed_create_config_keys allowed_create_config_prefixes
is_allowed_create_config_key_iff key =
    let lower = to_ascii_lowercase key in
    or_iff _ _ (contains_iff _ lower) (
      or_iff _ _
        (or_iff _ _ (starts_with_iff lower (codes "ipconfig"))
          (false_iff _ (starts_with_iff lower (codes "net"))))
        (is_create_disk_key_iff lower))

-- The name of an option: what stands before its first `=`, or all of it, where it has none.
pub data IsNamed : Text → Text → Type 0 where
  flag : (field : Text) → lacks b'=' field ≡ true → IsNamed field field
  given : (name value : Text) → lacks b'=' name ≡ true → IsNamed (name ++ b'=' ∷ value) name

-- An option that names where the content of a disk comes from: `import-from` or `file`, in any case of
-- the letters and with white space around it.
abbrev pub IsSource : Text → Type 0
IsSource field =
    (name : Text) × IsNamed field name
    × ((to_ascii_lowercase (trim name) ≡ codes "import-from")
        ⊎ (to_ascii_lowercase (trim name) ≡ codes "file"))

option_key-IsNamed :
    (field : Text)
    → (name : Text) × IsNamed field name × (option_key field ≡ to_ascii_lowercase (trim name))
unfolding option_key
option_key-IsNamed field = elim (Option-cases (split_once b'=' field)) [
  | inl e ↦ (field, flag field (split_once-lacks b'=' field e), rw (e, option_key) refl)
  | inr ((name, value), e) ↦
      let (spelled, ends) = (split_once_iff b'=' field name value).0 e in
      (name, rw spelled (given name value ends), rw (e, option_key) refl)
]

IsNamed-option_key :
    {field name : Text} → IsNamed field name → option_key field ≡ to_ascii_lowercase (trim name)
unfolding option_key
IsNamed-option_key (flag field ends) = rw (option_key, split_once-none b'=' field ends) refl
IsNamed-option_key (given name value ends) =
    rw (option_key, split_once_at b'=' name value ends) refl

names_source_iff : (field : Text) → (names_source field ≡ true) ↔ IsSource field
unfolding names_source
names_source_iff field = (
  λ h. let (name, named, e) = option_key-IsNamed field in (name, named, rw e at (tests.0 h)),
  λ (name, named, which). tests.1 (rw (IsNamed-option_key named) which),
)
  where
    tests :
        (names_source field ≡ true)
        ↔ ((option_key field ≡ codes "import-from") ⊎ (option_key field ≡ codes "file"))
    tests =
        or_iff (option_key field == codes "import-from") (option_key field == codes "file")
          (eq_iff (option_key field) (codes "import-from"))
          (eq_iff (option_key field) (codes "file"))

-- A new disk: a storage without a colon, a colon, a size of digits and dots, and then options that name
-- no source; and nothing in it names a volume of a guest.
pub record IsNewDisk (value : Text) : Type 0 where
  pub storage : Text
  pub rest : Text
  pub size : Text
  pub options : List Text
  pub spelled : value ≡ storage ++ b':' ∷ rest
  pub ends : lacks b':' storage ≡ true
  pub pieces : split b',' rest ≡ size ∷ options
  pub sized : is_empty size ≡ false
  pub digits : all (λ b. is_digit b || eqb b b'.') size ≡ true
  pub fresh : (option : Text) → Has option options → IsSource option → ⊥
  pub own : NamesVolume value → ⊥

allocates_sound :
    (pieces : List Text)
    → allocates pieces ≡ true
    → (size : Text) × (options : List Text) × (pieces ≡ size ∷ options)
      × (is_empty size ≡ false)
      × (all (λ b. is_digit b || eqb b b'.') size ≡ true)
      × ((option : Text) → Has option options → IsSource option → ⊥)
unfolding allocates is_size
allocates_sound [] h = absurd (cc)
allocates_sound (size ∷ options) h = (
  size,
  options,
  refl,
  ground arith,
  ground arith,
  λ option m source.
      let e = (names_source_iff option).1 source in
      absurd (ground (arith, h, any-of-Has names_source m e)),
)

disk_value_is_new_allocation-IsNewDisk :
    (value : Text) → disk_value_is_new_allocation value ≡ true → IsNewDisk value
unfolding disk_value_is_new_allocation
disk_value_is_new_allocation-IsNewDisk value h = elim (Option-cases (split_once b':' value)) [
  | inl e ↦ absurd (ground (arith, e, h))
  | inr ((storage, rest), e) ↦
      let (spelled, ends) = (split_once_iff b':' value storage rest).0 e in
      let (size, options, pieces, sized, digits, fresh) =
        allocates_sound (split b',' rest) (ground (arith, e, h)) in
      record {
        storage = storage;
        rest = rest;
        size = size;
        options = options;
        spelled = spelled;
        ends = ends;
        pieces = pieces;
        sized = sized;
        digits = digits;
        fresh = fresh;
        own = λ volume.
            let named = (contains_volume_reference_iff value).1 volume in
            absurd (ground (arith, e, h, named));
      }
]

disk_value_is_new_allocation_complete :
    (value : Text) → IsNewDisk value → disk_value_is_new_allocation value ≡ true
unfolding disk_value_is_new_allocation allocates is_size
disk_value_is_new_allocation_complete value n =
    let cut = (split_once_iff b':' value n.storage n.rest).1 (n.spelled, n.ends) in
    let sourceless : any names_source n.options ≡ false =
      elim (Bool-cases (any names_source n.options)) [
        | inr e ↦ e
        | inl e ↦
            let (option, m, source) = Has-of-any names_source n.options e in
            absurd (n.fresh option m ((names_source_iff option).0 source))
      ] in
    let own : contains_volume_reference value ≡ false =
      elim (Bool-cases (contains_volume_reference value)) [
        | inr e ↦ e
        | inl e ↦ absurd (n.own ((contains_volume_reference_iff value).0 e))
      ] in
    ground (arith, cut, n.pieces, n.sized, n.digits, sourceless, own)

pub disk_value_is_new_allocation_iff :
    (value : Text) → (disk_value_is_new_allocation value ≡ true) ↔ IsNewDisk value
disk_value_is_new_allocation_iff value =
    (disk_value_is_new_allocation-IsNewDisk value, disk_value_is_new_allocation_complete value)

-- A medium: none, the cloud-init drive of a storage, or an ISO image.
pub data IsMedium : Text → Type 0 where
  no_medium : IsMedium (codes "none,media=cdrom")
  cloudinit :
      (storage : Text)
      → is_empty storage ≡ false
      → lacks b':' storage ≡ true
      → IsMedium (storage ++ b':' ∷ codes "cloudinit")
  iso :
      (volid storage : Text)
      → lacks b',' volid ≡ true
      → IsVolid volid storage (codes "iso")
      → IsMedium (volid ++ b',' ∷ codes "media=cdrom")

cloudinit-IsMedium : (value : Text) → is_cloudinit (split_once b':' value) ≡ true → IsMedium value
cloudinit-IsMedium value h = elim (Option-cases (split_once b':' value)) [
  | inl e ↦ absurd (ground (arith, e, h))
  | inr ((storage, rest), e) ↦
      let (spelled, ends) = (split_once_iff b':' value storage rest).0 e in
      let same = (eq_iff rest (codes "cloudinit")).0 (ground (arith, e, h)) in
      rw (spelled, same) (cloudinit storage (ground (arith, e, h)) ends)
]

pub is_ok-of_ok : (r : Result (Unit {0}) ProxmoxError) → (is_ok r ≡ true) ↔ (r ≡ ok tt)
is_ok-of_ok (ok tt) = (λ h. refl, λ h. refl)
is_ok-of_ok (err e) = (λ h. absurd (cc), λ h. absurd (cc))

iso-IsMedium : (value : Text) → is_iso (split_once b',' value) ≡ true → IsMedium value
iso-IsMedium value h = elim (Option-cases (split_once b',' value)) [
  | inl e ↦ absurd (ground (arith, e, h))
  | inr ((volid, rest), e) ↦
      let (spelled, ends) = (split_once_iff b',' value volid rest).0 e in
      let same = (eq_iff rest (codes "media=cdrom")).0 (ground (arith, e, h)) in
      let valid =
        (is_ok-of_ok (validate_volid_kind volid (codes "iso"))).0 (ground (arith, e, h)) in
      let (storage, v) = (validate_volid_kind_iff volid (codes "iso")).0 valid in
      rw (spelled, same) (iso volid storage ends v)
]

IsMedium-complete : {value : Text} → IsMedium value → disk_value_is_allowed_media value ≡ true
unfolding disk_value_is_allowed_media
IsMedium-complete no_medium =
    let e = (eq_iff (codes "none,media=cdrom") (codes "none,media=cdrom")).1 refl in
    ground (arith, e)
IsMedium-complete (cloudinit storage full ends) =
    let cut = split_once_at b':' storage (codes "cloudinit") ends in
    let e = (eq_iff (codes "cloudinit") (codes "cloudinit")).1 refl in ground (arith, cut, e, full)
IsMedium-complete (iso volid storage ends v) =
    let cut = split_once_at b',' volid (codes "media=cdrom") ends in
    let e = (eq_iff (codes "media=cdrom") (codes "media=cdrom")).1 refl in
    let valid = (validate_volid_kind_iff volid (codes "iso")).1 (storage, v) in
    ground (arith, cut, e, valid)

pub disk_value_is_allowed_media_iff :
    (value : Text) → (disk_value_is_allowed_media value ≡ true) ↔ IsMedium value
unfolding disk_value_is_allowed_media
disk_value_is_allowed_media_iff value = (
  λ h. elim (Bool-cases (value == codes "none,media=cdrom")) [
    | inl e ↦ rw ((eq_iff value (codes "none,media=cdrom")).0 e) no_medium
    | inr e ↦ elim (Bool-cases (is_cloudinit (split_once b':' value))) [
      | inl e1 ↦ cloudinit-IsMedium value e1
      | inr e1 ↦ iso-IsMedium value (ground (arith, h, e, e1))
    ]
  ],
  λ m. IsMedium-complete m,
)
