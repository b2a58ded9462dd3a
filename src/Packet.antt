-- ===== src/Packet.antt =====
-- `dopacket` of src/packet.c without ZIP_LINKS: the bytes read from a connection are cut into
-- lines, and each line is parsed.
pub mod Spec
pub mod Lines
pub mod Count
mod Tests
use igniteircd.Prelude.{
  ℕ, zero, suc, ◌+◌, ◌-◌, ◌/◌, ◌%◌, ◌^◌, Bool, true, false, not, ◌&&◌, ◌||◌, List, [], ◌∷◌, ◌++◌,
  Text, length, ltb, ◌==◌, if◌then◌else◌,
}

-- `sizeof(cptr->buffer) - 1`
abbrev pub room : ℕ
room = 511

-- Messages received by the connection and by this server, and all else that `parse` changes.
pub record Session {ℓ} (W : Type ℓ) : Type ℓ where
  pub receive_m : ℕ
  pub me_receive_m : ℕ
  pub world : W

-- `parse` with its handlers, FLAGS_DEADSOCKET, and exit_client. The answer of `parse` is whether
-- it returned CLIENT_EXITED. It does not see the counters of bytes, which only reports show.
pub record Parser {ℓ} (W : Type ℓ) : Type ℓ where
  pub parse : Session W → Text → W × Bool
  pub is_dead : W → Bool
  pub exit_client : W → W

-- `reading` has what stands in `buffer` before `ch1`; nothing is read after `exited`.
pub data Reading {ℓ} (W : Type ℓ) : Type ℓ where
  exited : Session W → Reading W
  reading : Session W → Text → Reading W

pub record Bytes : Type 0 where
  pub receive_b : ℕ
  pub receive_k : ℕ

-- `+= length`, an unsigned short, and what is over 1023 is carried to an unsigned int;
-- `& 0x03ff` is the remainder.
pub count_bytes : ℕ → Bytes → Bytes
count_bytes n b =
    let total = (b.receive_b + n) % 65536 in
    if ltb 1023 total
    then record { receive_b = total % 1024; receive_k = (b.receive_k + total / 1024) % 2 ^ 32 }
    else record { receive_b = total; receive_k = b.receive_k }

abbrev pub is_line_end : ℕ → Bool
is_line_end g = (g == b'\n') || (g == b'\r')

-- A byte goes to `*ch1`, which moves on while there is room for the NUL.
pub store : Text → ℕ → Text
store buffer g = if ltb (length buffer) room then buffer ++ g ∷ [] else buffer

module _ {ℓ} {W : Type ℓ} (p : Parser W) where
  -- Behind the call of `parse`.
  pub after_parse : Session W → W × Bool → Reading W
  after_parse s (w, gone) =
      if gone
      then exited (record s { world = w })
      else if p.is_dead w
      then exited (record s { world = p.exit_client w })
      else reading (record s { world = w }) []

  -- A line is complete.
  pub end_line : Session W → Text → Reading W
  end_line s line =
      let s' = record s { receive_m = s.receive_m + 1; me_receive_m = s.me_receive_m + 1 } in
      after_parse s' (p.parse s' line)

  pub read_char : Session W → Text → ℕ → Reading W
  read_char s [] g = if is_line_end g then reading s [] else reading s (store [] g)
  read_char s (c ∷ buffer) g =
      if is_line_end g then end_line s (c ∷ buffer) else reading s (store (c ∷ buffer) g)

  -- `while (length-- > 0)`
  pub read_on : Reading W → Text → Reading W
  read_on (exited s) input = exited s
  read_on (reading s buffer) [] = reading s buffer
  read_on (reading s buffer) (g ∷ input) = read_on (read_char s buffer g) input

-- The counters of bytes of the connection and of this server.
pub record Connection {ℓ} (W : Type ℓ) : Type ℓ where
  pub bytes : Bytes
  pub me_bytes : Bytes
  pub state : Reading W

pub dopacket {ℓ} : {W : Type ℓ} → Parser W → Connection W → Text → Connection W
dopacket p c input = record {
  bytes = count_bytes (length input) c.bytes;
  me_bytes = count_bytes (length input) c.me_bytes;
  state = read_on p c.state input;
}

-- What is read from a client is one text already, shorter than the buffer it is copied to.
pub client_dopacket {ℓ} : {W : Type ℓ} → Parser W → Bytes → Bytes → Session W → Text → Connection W
client_dopacket p bytes me_bytes s buffer = record {
  bytes = count_bytes (length buffer) bytes;
  me_bytes = count_bytes (length buffer) me_bytes;
  state = end_line p s buffer;
}
