-- ===== src/Options.antt =====
-- v2/options.go: the options of readers and writers. `TraversalPrototypeChooser`, a function of
-- go-ipld-prime that only traversals use, is left out.
use go_car.Prelude.{ℕ, ◌-◌, ◌*◌, ◌^◌, List, [], ◌∷◌, Bool, false, ◌==◌, if◌then◌else◌}
use go_car.Carv1.{default_max_allowed_header_size, default_max_allowed_section_size}
use go_car.Index.Codec.{Codecs}

abbrev pub default_max_index_cid_size : ℕ
default_max_index_cid_size = 2 * 2 ^ 10

abbrev pub car_index_none : ℕ
car_index_none = 0x300000

pub record Options : Type 0 where
  pub data_padding : ℕ
  pub index_padding : ℕ
  pub index_codec : ℕ
  pub zero_length_section_as_eof : Bool
  pub max_index_cid_size : ℕ
  pub store_identity_cids : Bool
  pub blockstore_allow_duplicate_puts : Bool
  pub blockstore_use_whole_cids : Bool
  pub max_traversal_links : ℕ
  pub write_as_car_v1 : Bool
  pub max_allowed_header_size : ℕ
  pub max_allowed_section_size : ℕ

-- `Option`, a function that changes the options.
abbrev pub Setting : Type 0
Setting = Options → Options

abbrev pub initial_options : Options
initial_options = record {
  data_padding = 0;
  index_padding = 0;
  index_codec = 0;
  zero_length_section_as_eof = false;
  max_index_cid_size = 0;
  store_identity_cids = false;
  blockstore_allow_duplicate_puts = false;
  blockstore_use_whole_cids = false;
  max_traversal_links = 2 ^ 63 - 1;
  write_as_car_v1 = false;
  max_allowed_header_size = default_max_allowed_header_size;
  max_allowed_section_size = default_max_allowed_section_size;
}

-- `for _, o := range opt { o(&opts) }`.
unfoldable pub apply_each : List Setting → Options → Options
apply_each [] o = o
apply_each (set ∷ sets) o = apply_each sets (set o)

unfoldable pub apply_options : Codecs → List Setting → Options
apply_options codecs sets =
    let o = apply_each sets initial_options in
    let o1 =
      if o.index_codec == 0
      then record o { index_codec = codecs.car_multihash_index_sorted }
      else o in
    if o1.max_index_cid_size == 0
    then record o1 { max_index_cid_size = default_max_index_cid_size }
    else o1

unfoldable pub zero_length_section_as_eof : Bool → Setting
zero_length_section_as_eof enable o = record o { zero_length_section_as_eof = enable }

unfoldable pub use_data_padding : ℕ → Setting
use_data_padding p o = record o { data_padding = p }

unfoldable pub use_index_padding : ℕ → Setting
use_index_padding p o = record o { index_padding = p }

unfoldable pub use_index_codec : ℕ → Setting
use_index_codec c o = record o { index_codec = c }

unfoldable pub without_index : Setting
without_index o = record o { index_codec = car_index_none }

unfoldable pub store_identity_cids : Bool → Setting
store_identity_cids b o = record o { store_identity_cids = b }

unfoldable pub max_index_cid_size : ℕ → Setting
max_index_cid_size s o = record o { max_index_cid_size = s }

unfoldable pub max_allowed_header_size : ℕ → Setting
max_allowed_header_size max o = record o { max_allowed_header_size = max }

unfoldable pub max_allowed_section_size : ℕ → Setting
max_allowed_section_size max o = record o { max_allowed_section_size = max }
