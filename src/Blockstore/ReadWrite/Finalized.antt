-- ===== src/Blockstore/ReadWrite/Finalized.antt =====
-- The file that Finalize leaves.
use go_car.Prelude.{ℕ, ◌+◌, ◌++◌}
use go_car.Bytes.{Bytes}
use go_car.File.{zeros}
use go_car.Varint.{Varint}
use go_car.Header.{Header, pragma, pragma_size, header_size, set_fully_indexed}
use go_car.Header.Codec.{header_bytes}
use go_car.Index.Codec.{Index}
use go_car.Options.{Options}
use go_car.Blockstore.ReadWrite.{ReadWrite}

-- The CARv2 header of a payload of `n` bytes.
abbrev pub final_header : Options → ℕ → Header
final_header o n = record {
  characteristics = set_fully_indexed o.store_identity_cids (record { hi = 0; lo = 0 });
  data_offset = pragma_size + header_size + o.data_padding;
  data_size = n;
  index_offset = pragma_size + header_size + o.data_padding + n + o.index_padding;
}

-- The layout of a CARv2.
abbrev pub car_v2_bytes : Header → ℕ → Bytes → ℕ → Bytes → Bytes
car_v2_bytes h dp payload ip index =
    pragma ++ (header_bytes h ++ (zeros dp ++ (payload ++ (zeros ip ++ index))))
