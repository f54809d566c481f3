-- ===== src/Tcp/Tests.antt =====
-- The core library's functions as arithmetic, and the theorems at concrete segments.
use actor_network.Prelude.{
  List, [], arith, false, length, some, true, ℕ, ◌%◌, ◌*◌, ◌++◌, ◌+◌, ◌/◌, ◌<◌, ◌^◌, ◌∷◌, ◌≡◌, ◌≢◌,
  ◌≤◌,
}
use actor_network.Tcp.Core.{Align, BigEndian}
use actor_network.Tcp.Header.{TcpHdr, read, write}
use actor_network.Tcp.Header.RoundTrip.{read-write}
use actor_network.Tcp.Option.{TcpOption, fill, get_size, parse, parsed, unfinished}
use actor_network.Tcp.Option.Parse.{parse-ne-unfinished}
use actor_network.Tcp.Option.RoundTrip.{fill-parse, told}

pub aligned : ℕ → ℕ
aligned v = (v + 3) / 4 * 4

pub aligned_multiple : (v : ℕ) → aligned v % 4 ≡ 0
unfolding aligned
aligned_multiple v = omega arith

pub aligned_bounds : (v : ℕ) → (v ≤ aligned v) × (aligned v < v + 4)
unfolding aligned
aligned_bounds v = omega arith

abbrev pub core_align : Align
core_align = record {
  align_up = aligned;
  align_up_multiple = aligned_multiple;
  align_up_bounds = aligned_bounds;
}

abbrev split16 : ℕ → ℕ × ℕ
split16 n = (n / 256, n % 256)

abbrev joined16 : ℕ × ℕ → ℕ
joined16 (a, b) = a * 256 + b

abbrev split32 : ℕ → ℕ × ℕ × ℕ × ℕ
split32 n = (n / 2 ^ 24, n / 2 ^ 16 % 256, n / 256 % 256, n % 256)

abbrev joined32 : ℕ × ℕ × ℕ × ℕ → ℕ
joined32 (a, b, c, d) = a * 2 ^ 24 + b * 2 ^ 16 + c * 256 + d

pub joined-split16 : (n : ℕ) → n < 2 ^ 16 → joined16 (split16 n) ≡ n
joined-split16 n h = omega arith

pub joined-split32 : (n : ℕ) → n < 2 ^ 32 → joined32 (split32 n) ≡ n
joined-split32 n h = omega arith

abbrev pub big_endian : BigEndian
big_endian = record {
  write16 = split16;
  read16 = joined16;
  write32 = split32;
  read32 = joined32;
  read-write16 = joined-split16;
  read-write32 = joined-split32;
}

abbrev pub fresh_option : TcpOption
fresh_option = record {
  mss_received = false;
  win_scale_received = false;
  timestamps_received = false;
  sack_received = false;
  remote_mss = 536;
  local_mss = 1460;
  remote_win_scale = 0;
  local_win_scale = 7;
}

fill-parse_example :
    (bytes : List ℕ) × (fill big_endian core_align fresh_option true false
        (get_size big_endian core_align fresh_option true false)
      ≡ some bytes)
    × (length bytes ≡ get_size big_endian core_align fresh_option true false)
    × (length bytes % 4 ≡ 0)
    × (parse big_endian bytes fresh_option
        ≡ parsed (told big_endian core_align fresh_option fresh_option true false))
fill-parse_example =
    fill-parse big_endian core_align fresh_option fresh_option true false (omega arith)

parse-ne-unfinished_example :
    parse big_endian (1 ∷ 2 ∷ 4 ∷ 5 ∷ 180 ∷ 0 ∷ []) fresh_option ≢ unfinished
parse-ne-unfinished_example =
    parse-ne-unfinished big_endian (1 ∷ 2 ∷ 4 ∷ 5 ∷ 180 ∷ 0 ∷ []) fresh_option

abbrev syn_header : TcpHdr
syn_header = record {
  src_port = 10000;
  dst_port = 80;
  seq = record { raw = 4294967295 };
  ack = record { raw = 0 };
  rsvd1 = 0;
  data_offset = 7;
  f_fin = false;
  f_syn = true;
  f_rst = false;
  f_psh = false;
  f_ack = false;
  f_urg = false;
  rsvd2 = 0;
  window = 29200;
  checksum = 0;
  urgent = 0;
}

read-write_example : read big_endian (write big_endian syn_header ++ 9 ∷ []) ≡ some syn_header
read-write_example = read-write big_endian syn_header (9 ∷ []) (omega arith)
