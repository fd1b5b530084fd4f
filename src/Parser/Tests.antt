-- ===== src/Parser/Tests.antt =====
-- The parser on concrete frames.
use odp.Prelude.{
  ℕ, ◌%◌, ◌<◌, ◌≡◌, refl, Bool, true, false, Option, none, some, List, [], ◌∷◌, arith, get_elem?,
  ◌==◌, if◌then◌else◌,
}
use odp.Parser.{Header, no_input, no_error, no_output, any_error}
use odp.Parser.Frame.{odp_packet_parse}
use odp.Parser.Walk.{AreBytes, odp_packet_parse_total}
use odp.Parser.Layers.{HasL2}
use odp.Parser.Datagram.{HasUdp4, udp4_header, odp_packet_parse-HasUdp4}
use odp.Parser.Datagram6.{HasUdp6, udp6_header, odp_packet_parse-HasUdp6}
use odp.Parser.Flags.Kinds.{Flag, same, has, has_set}
use odp.Parser.Flags.Laws.{has-has_set}

abbrev new_header : ℕ → Header
new_header len = record {
  input = record no_input { unparsed = true };
  error = no_error;
  output = no_output;
  l2_offset = 0;
  l3_offset = 0;
  l4_offset = 0;
  payload_offset = 0;
  vlan_s_tag = 0;
  vlan_c_tag = 0;
  l3_protocol = 0;
  l3_len = 0;
  l4_protocol = 0;
  l4_len = 0;
  frame_len = len;
}

abbrev byte : Option ℕ → ℕ
byte none = 0
byte (some b) = b % 256

-- The memory whose first addresses hold these bytes, and 0 elsewhere.
abbrev holding : List ℕ → ℕ → ℕ
holding bytes a = byte (get_elem? bytes a)

byte-lt : (o : Option ℕ) → byte o < 256
byte-lt none = omega arith
byte-lt (some b) = omega arith

abbrev zeros : ℕ → List ℕ → List ℕ
zeros ℕ.zero rest = rest
zeros (ℕ.suc n) rest = 0 ∷ zeros n rest

-- A tagged frame: IPv4 header of 6 words, 40 bytes in all, UDP of 16 bytes.
abbrev frame4 : List ℕ
frame4 =
    zeros 12 (
      0x81 ∷ 0 ∷ 0 ∷ 7 ∷ 8 ∷ 0 ∷ 0x46 ∷ 0 ∷ 0 ∷ 40 ∷ zeros 5 (17 ∷ zeros 18 (0 ∷ 16 ∷ zeros 10 [])))

-- IPv6, UDP of 48 bytes.
abbrev frame6 : List ℕ
frame6 = zeros 12 (0x86 ∷ 0xdd ∷ 0x60 ∷ 0 ∷ 0 ∷ 0 ∷ 0 ∷ 48 ∷ 17 ∷ zeros 37 (0 ∷ 48 ∷ zeros 42 []))

frame4-HasL2 : HasL2 (holding frame4) 0 none (some 7) 0x0800
frame4-HasL2 = record {
  has_outer = omega arith;
  has_inner = omega arith;
  has_type = refl;
  dix = omega arith;
}

frame4-HasUdp4 : HasUdp4 (holding frame4) 0 18 58 6 40 16
frame4-HasUdp4 = record {
  version = refl;
  words = omega arith;
  total = refl;
  udp = refl;
  length = refl;
  held = omega arith;
  small = omega arith;
}

odp_packet_parse-HasUdp4_example :
    odp_packet_parse (holding frame4) 0 (new_header 58)
    ≡ some (false, udp4_header none (some 7) 6 40 16 false (new_header 58))
odp_packet_parse-HasUdp4_example =
    odp_packet_parse-HasUdp4 (holding frame4) 0 (new_header 58) none (some 7) 6 40 16 frame4-HasL2
      frame4-HasUdp4

frame6-HasL2 : HasL2 (holding frame6) 0 none none 0x86dd
frame6-HasL2 = record {
  has_outer = omega arith;
  has_inner = omega arith;
  has_type = refl;
  dix = omega arith;
}

frame6-HasUdp6 : HasUdp6 (holding frame6) 0 14 102 48
frame6-HasUdp6 = record {
  version = refl;
  total = refl;
  udp = refl;
  length = refl;
  held = omega arith;
  small = omega arith;
}

odp_packet_parse-HasUdp6_example :
    odp_packet_parse (holding frame6) 0 (new_header 102)
    ≡ some (true, udp6_header none none 48 (new_header 102))
odp_packet_parse-HasUdp6_example =
    odp_packet_parse-HasUdp6 (holding frame6) 0 (new_header 102) none none 48 frame6-HasL2
      (omega arith) frame6-HasUdp6

frame4-AreBytes : AreBytes (holding frame4)
frame4-AreBytes a = byte-lt (get_elem? frame4 a)

odp_packet_parse_total_example :
    (h' : Header) × (odp_packet_parse (holding frame4) 0 (new_header 58)
      ≡ some (any_error h'.error, h'))
    × (h'.input.unparsed ≡ false)
odp_packet_parse_total_example =
    odp_packet_parse_total (holding frame4) 0 (new_header 58) frame4-AreBytes (omega arith)

has-has_set_example :
    (b : Bool) × (h' h'' : Header) × (has Flag.udp (holding frame4) 0 (new_header 58)
      ≡ some (b, h'))
    × (has Flag.udp (holding frame4) 0 h' ≡ some (b, h'))
    × (has_set Flag.tcp 3 (holding frame4) 0 (new_header 58) ≡ some h'')
    × (has Flag.udp (holding frame4) 0 h''
        ≡ some (if same Flag.udp Flag.tcp then 3 % 2 == 1 else b, h''))
has-has_set_example =
    has-has_set Flag.udp Flag.tcp 3 (holding frame4) 0 (new_header 58) frame4-AreBytes (omega arith)
