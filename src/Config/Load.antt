-- ===== src/Config/Load.antt =====
-- internal/config/config.go: reading the two inputs, the per-file rules, and the merge across
-- files. The YAML decoder and SHA-256 are third-party or library code, and parameters; a decoder is
-- given the value that the caller has filled with defaults, as `yaml.Unmarshal` is.
pub mod Names
pub mod Fingerprint
pub mod FileRules
use trimon.Base.{
  ℕ, ◌*◌, String, Bool, true, false, not, ◌&&◌, ◌||◌, Option, none, some, List, [], ◌∷◌, ◌++◌,
  str_eq, codes, ◌==◌, if◌then◌else◌, Result, ok, err, ◌>>=◌, ◌>>◌, refuse_if, wrap_err,
}
use trimon.Base.Int.{ℤ, pos, leb_ℤ}
use trimon.Net.{Host, bytes_eq, is_some}
use trimon.Types.{ProbeConfig}
use trimon.Config.Schema.{
  GlobalConfig, RawProbeConfig, RawProbeFile, RawOpsFile, ProbeSource, Config, Error, name_in_both,
  probes_in_global, global_outside, yaml_invalid, dir_unreadable, no_yaml_files, file_unreadable,
  format_invalid, buffer_not_positive, nil_dereference, in_file,
}
use trimon.Config.Utf8.{bytes}
use trimon.Config.Validate.{validate_global, validate_otlp, merge_and_validate_probes}

abbrev pub global_file_name : String
global_file_name = "_global.yaml"

abbrev seconds : ℕ → ℤ
seconds n = pos (n * 1_000_000_000)

abbrev pub default_global : GlobalConfig
default_global = record {
  interval = seconds 30;
  packet_interval = seconds 1;
  timeout = seconds 5;
  count = pos 3;
  source_ip = "";
}

-- What `parseOpsFile` fills in before it decodes.
abbrev pub default_ops : RawOpsFile
default_ops = record {
  exporters = record {
    stdout = record { enabled = false; format = "json" };
    otlp = record {
      enabled = false;
      endpoint = "";
      protocol = "grpc";
      insecure = false;
      tls = record { cert_file = ""; key_file = ""; ca_file = "" };
      batch = record { export_interval = seconds 30; export_timeout = seconds 10 };
      retry = record { enabled = true; max_elapsed_time = seconds 300 };
      shutdown_timeout = seconds 10;
    };
  };
  server = record { listen = "127.0.0.1:8080" };
  pipeline = record { buffer_size = pos 1000 };
}

-- The decoders, `none` for an error, and the hash.
pub record Codec : Type 0 where
  pub decode_ops : RawOpsFile → List ℕ → Option RawOpsFile
  pub decode_probes : RawProbeFile → List ℕ → Option RawProbeFile
  pub sha256 : List ℕ → List ℕ

-- What the host says of a directory entry and of a file.
pub record DirEntry : Type 0 where
  pub name : String
  pub is_dir : Bool

pub record Disk : Type 0 where
  pub read_file : String → Option (List ℕ)
  pub read_dir : String → Option (List DirEntry)
  pub join : String → String → String

-- `filepath.Ext` of a name without a separator: from the last dot on.
unfoldable pub ext_from : Option (List ℕ) → List ℕ → Option (List ℕ)
ext_from best [] = best
ext_from best (c ∷ cs) = ext_from (if c == b'.' then some (c ∷ cs) else best) cs

abbrev is_yaml_ext : Option (List ℕ) → Bool
is_yaml_ext none = false
is_yaml_ext (some e) = bytes_eq e (codes ".yaml")

abbrev starts_with_dot : List ℕ → Bool
starts_with_dot [] = false
starts_with_dot (c ∷ _) = c == b'.'

unfoldable pub is_skipped : DirEntry → Bool
unfolding ext_from
is_skipped e =
    e.is_dir || starts_with_dot (codes e.name) || not (is_yaml_ext (ext_from none (codes e.name)))

module _ (disk : Disk) where
  unfoldable pub read_source : String → String → Result Error ProbeSource
  read_source dir name = elim (disk.read_file (disk.join dir name)) [
    | none ↦ err (file_unreadable name)
    | some bytes ↦ ok (record { name = name; content = bytes })
  ]

  unfoldable pub read_entries : String → List DirEntry → Result Error (List ProbeSource)
  read_entries dir [] = ok []
  read_entries dir (e ∷ es) =
      let others = read_entries dir es in
      if is_skipped e then others else do s ← read_source dir e.name; rest ← others; ok (s ∷ rest)

  unfoldable pub non_empty : List ProbeSource → Result Error (List ProbeSource)
  non_empty [] = err no_yaml_files
  non_empty (s ∷ ss) = ok (s ∷ ss)

  unfoldable pub read_probe_dir : String → Result Error (List ProbeSource)
  unfolding read_entries read_source non_empty
  read_probe_dir dir = elim (disk.read_dir dir) [
    | none ↦ err dir_unreadable
    | some es ↦ read_entries dir es >>= non_empty
  ]

-- What `fingerprint` feeds to the hash: the bytes of the name and the content, each ended by a zero byte.
unfoldable pub preimage : List ProbeSource → List ℕ
preimage [] = []
preimage (s ∷ ss) = bytes s.name ++ 0 ∷ (s.content ++ 0 ∷ preimage ss)

pub record Fragment : Type 0 where
  pub file : String
  pub raws : List RawProbeConfig

abbrev or_empty {ℓ} : {A : Type ℓ} → Option (List A) → List A
or_empty none = []
or_empty (some xs) = xs

unfoldable pub lookup_origin : String → List (String × String) → Option String
lookup_origin k [] = none
lookup_origin k ((n, file) ∷ m) = if str_eq k n then some file else lookup_origin k m

-- One round of the loop over the names of a file's probes.
unfoldable pub claim_names :
    String → List (String × String) → List ProbeConfig → Result Error (List (String × String))
unfolding lookup_origin
claim_names file origin [] = ok origin
claim_names file origin (pc ∷ pcs) = elim (lookup_origin pc.name origin) [
  | some prev ↦ err (name_in_both pc.name prev file)
  | none ↦ claim_names file ((pc.name, file) ∷ origin) pcs
]

module _ (host : Host) (codec : Codec) where
  unfoldable pub decoded : String → RawProbeFile → List ℕ → Result Error RawProbeFile
  decoded name preset bytes = elim (codec.decode_probes preset bytes) [
    | none ↦ err (in_file name yaml_invalid)
    | some raw ↦ ok raw
  ]

  -- `global = *raw.Global`.
  unfoldable pub dereference : Option GlobalConfig → Result Error GlobalConfig
  dereference none = err nil_dereference
  dereference (some g) = ok g

  -- One round of the first loop of `parseProbeSources`: the defaults so far, and the fragments.
  unfoldable pub read_fragment :
      GlobalConfig → List Fragment → ProbeSource → Result Error (GlobalConfig × List Fragment)
  unfolding decoded dereference
  read_fragment global fragments s =
      if str_eq s.name global_file_name
      then (do
        raw ← decoded s.name (record { global = some global; probes = none }) s.content
        refuse_if (is_some raw.probes) (probes_in_global s.name)
        g ← dereference raw.global
        ok (g, fragments))
      else (do
        raw ← decoded s.name (record { global = none; probes = none }) s.content
        refuse_if (is_some raw.global) (global_outside s.name)
        ok (global, fragments ++ record { file = s.name; raws = or_empty raw.probes } ∷ []))

  unfoldable pub read_fragments :
      GlobalConfig → List Fragment → List ProbeSource → Result Error (GlobalConfig × List Fragment)
  unfolding read_fragment
  read_fragments global fragments [] = ok (global, fragments)
  read_fragments global fragments (s ∷ ss) = do
    (global', fragments') ← read_fragment global fragments s
    read_fragments global' fragments' ss

  -- The second loop: where each name was defined, and the probes so far.
  unfoldable pub merge_fragments :
      GlobalConfig
      → List (String × String)
      → List ProbeConfig
      → List Fragment
      → Result Error (List ProbeConfig)
  merge_fragments global origin probes [] = ok probes
  merge_fragments global origin probes (f ∷ fs) = do
    pcs ← wrap_err (in_file f.file) (merge_and_validate_probes host f.raws global)
    origin' ← claim_names f.file origin pcs
    merge_fragments global origin' (probes ++ pcs) fs

  unfoldable pub parse_probe_sources :
      List ProbeSource → Result Error (GlobalConfig × List ProbeConfig)
  unfolding read_fragments merge_fragments
  parse_probe_sources sources = do
    (global, fragments) ← read_fragments default_global [] sources
    validate_global global
    probes ← merge_fragments global [] [] fragments
    ok (global, probes)

  unfoldable pub check_ops : RawOpsFile → Result Error RawOpsFile
  check_ops raw = do
    refuse_if
        (not (str_eq raw.exporters.stdout.format "json")
          && not (str_eq raw.exporters.stdout.format "text"))
        (format_invalid raw.exporters.stdout.format)
    validate_otlp raw.exporters.otlp
    refuse_if (leb_ℤ raw.pipeline.buffer_size (pos 0)) buffer_not_positive
    ok raw

  unfoldable pub parse_ops_file : List ℕ → Result Error RawOpsFile
  unfolding check_ops
  parse_ops_file bytes = elim (codec.decode_ops default_ops bytes) [
    | none ↦ err yaml_invalid
    | some raw ↦ check_ops raw
  ]

  unfoldable pub parse_sources : List ℕ → List ProbeSource → Result Error Config
  unfolding parse_ops_file parse_probe_sources preimage
  parse_sources ops_bytes sources = do
    ops ← parse_ops_file ops_bytes
    (global, probes) ← parse_probe_sources sources
    ok (record {
      global = global;
      exporters = ops.exporters;
      server = ops.server;
      pipeline = ops.pipeline;
      probes = probes;
      sha256 = codec.sha256 (preimage sources);
    })

  unfoldable pub load : Disk → String → String → Result Error Config
  unfolding parse_sources read_probe_dir
  load disk ops_path probes_dir = elim (disk.read_file ops_path) [
    | none ↦ err (file_unreadable ops_path)
    | some ops_bytes ↦ read_probe_dir disk probes_dir >>= parse_sources ops_bytes
  ]
