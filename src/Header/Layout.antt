-- ===== src/Header/Layout.antt =====
-- Where NewHeader and the With methods place the data payload and the index.
use go_car.Prelude.{ℕ, ◌+◌, ◌<◌, ◌≡◌, arith, true}
use go_car.Header.{u64, Header, new_header, with_data_padding, with_index_padding}
use go_car.Header.{with_data_size, pragma_size, header_size, has_index}

-- The header that the blockstore builds: paddings first, the data size when it is final.
abbrev pub padded : ℕ → ℕ → ℕ → Header
padded p q size = with_data_size size (with_index_padding q (with_data_padding p (new_header 0)))

-- As long as the offsets fit 64 bits, the payload starts `p` bytes behind pragma and header, the
-- index starts `q` bytes behind the payload, and the header says that there is an index.
pub padded_layout :
    (p q size : ℕ)
    → pragma_size + header_size + p + size + q < u64
    → ((padded p q size).data_offset ≡ pragma_size + header_size + p)
      × ((padded p q size).data_size ≡ size)
      × ((padded p q size).index_offset ≡ (padded p q size).data_offset + size + q)
      × (has_index (padded p q size) ≡ true)
unfolding new_header with_data_padding with_index_padding with_data_size has_index
padded_layout p q size h = ground arith

-- Both paddings of one header may be set in either order, also where the sums wrap.
pub paddings_commute :
    (p q : ℕ) (h : Header)
    → with_data_padding p (with_index_padding q h) ≡ with_index_padding q (with_data_padding p h)
unfolding with_data_padding with_index_padding
paddings_commute p q h = ground arith
