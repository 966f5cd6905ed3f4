-- ===== src/Tests/Wire.antt =====
-- A wire on which a number is one symbol.
use deltafs.Prelude.{
  ℕ, ◌<◌, ◌≡◌, refl, ◌==◌, [], ◌∷◌, ◌++◌, Option, none, some, Bytes, length, take, drop, arith,
  if◌then◌else◌,
}
use deltafs.Mds.Types.{
  Error, not_found, already_exists, corruption, not_supported, invalid_argument, io_error,
  buffer_full, file_expected, dir_expected, access_denied, try_again, invalid_file_descriptor, Stat,
}
use deltafs.Mds.Rpc.Wire.{Wire, IsWire, LookupStat}
use deltafs.Mds.Rpc.Answers.{take-append, drop-append}

abbrev one : Bytes → Option (ℕ × Bytes)
one [] = none
one (b ∷ bs) = some (b, bs)

abbrev slice : Bytes → Option (Bytes × Bytes)
slice [] = none
slice (n ∷ bs) = some (take n bs, drop n bs)

abbrev head : Bytes → ℕ
head [] = 0
head (b ∷ bs) = b

abbrev stat_of : Bytes → Option (Stat × Bytes)
stat_of (a ∷ b ∷ c ∷ d ∷ e ∷ f ∷ g ∷ h ∷ i ∷ j ∷ rest) = some (
  record {
    reg_id = a;
    snap_id = b;
    inode_no = c;
    file_size = d;
    file_mode = e;
    zeroth_server = f;
    user_id = g;
    group_id = h;
    modify_time = i;
    change_time = j;
  },
  rest,
)
stat_of _ = none

abbrev lookup_stat_of : Bytes → Option (LookupStat × Bytes)
lookup_stat_of (a ∷ b ∷ c ∷ d ∷ e ∷ f ∷ g ∷ h ∷ rest) = some (
  record {
    reg_id = a;
    snap_id = b;
    inode_no = c;
    zeroth_server = d;
    dir_mode = e;
    user_id = f;
    group_id = g;
    lease_due = h;
  },
  rest,
)
lookup_stat_of _ = none

abbrev number : Error → ℕ
number not_found = 1
number already_exists = 2
number corruption = 3
number not_supported = 4
number invalid_argument = 5
number io_error = 6
number buffer_full = 7
number file_expected = 8
number dir_expected = 9
number access_denied = 10
number try_again = 11
number invalid_file_descriptor = 12

abbrev error_of : ℕ → Error
error_of n =
    if n == 1
    then not_found
    else if n == 2
    then already_exists
    else if n == 3
    then corruption
    else if n == 4
    then not_supported
    else if n == 5
    then invalid_argument
    else if n == 6
    then io_error
    else if n == 7
    then buffer_full
    else if n == 8
    then file_expected
    else if n == 9
    then dir_expected
    else if n == 10
    then access_denied
    else if n == 11
    then try_again
    else invalid_file_descriptor

abbrev pub symbols : Wire
symbols = record {
  put_varint64 = λ n. n ∷ [];
  get_varint64 = one;
  put_varint32 = λ n. n ∷ [];
  get_varint32 = one;
  put_slice = λ s. length s ∷ s;
  get_slice = slice;
  put_fixed32 = λ n. n ∷ 0 ∷ 0 ∷ 0 ∷ [];
  decode_fixed32 = head;
  put_stat = λ s.
      s.reg_id ∷ s.snap_id ∷ s.inode_no ∷ s.file_size ∷ s.file_mode ∷ s.zeroth_server ∷ s.user_id
      ∷ s.group_id ∷ s.modify_time ∷ s.change_time ∷ [];
  get_stat = stat_of;
  put_lookup_stat = λ s.
      s.reg_id ∷ s.snap_id ∷ s.inode_no ∷ s.zeroth_server ∷ s.dir_mode ∷ s.user_id ∷ s.group_id
      ∷ s.lease_due ∷ [];
  get_lookup_stat = lookup_stat_of;
  err_code = number;
  from_code = error_of;
  buf_size = 2000;
}

slice_read : (s rest : Bytes) → slice ((length s ∷ s) ++ rest) ≡ some (s, rest)
slice_read s rest = rw (take-append s rest, drop-append s rest)

number_back : (e : Error) → error_of (number e) ≡ e
number_back not_found = refl
number_back already_exists = refl
number_back _ = refl

number_pos : (e : Error) → 0 < number e
number_pos not_found = omega arith
number_pos _ = omega arith

number_small : (e : Error) → number e < 13
number_small not_found = omega arith
number_small _ = omega arith

pub symbols-IsWire : IsWire symbols
symbols-IsWire = record {
  varint64 = λ n h rest. refl;
  varint32 = λ n h rest. refl;
  slice = λ s h rest. slice_read s rest;
  fixed32 = λ n h. refl;
  length-fixed32 = λ n. refl;
  stat = λ s h rest. refl;
  lookup_stat = λ s h rest. refl;
  code = number_back;
  code_pos = number_pos;
  code_small = λ e. omega (arith, number_small e);
}
