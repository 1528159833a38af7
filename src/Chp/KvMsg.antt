-- ===== src/Chp/KvMsg.antt =====
-- 12.CHP-Clustered Hashmap Protocol/kvmsg.hpp and kvmsg.cpp. A frame stands for its places in the two
-- arrays `m_present` and `m_frame`.
pub mod Sequence
pub mod Wire
use zero_mq_rfc_implementati.Base.{
  ℕ, Bytes, is_empty, c_str, Bool, true, [], nat_eq, length, if◌then◌else◌, Result, ok, contract,
  out_of_range, guard, or_fault, ◌>>=◌, ◌>>◌,
}
use zero_mq_rfc_implementati.Base.Zmqpp.{Message, Zmqpp, parts, push_front, push_back, get_text}
use zero_mq_rfc_implementati.Base.Dict.{Dict, lookup, assign}
use zero_mq_rfc_implementati.Chp.Archive.{Archive}
use zero_mq_rfc_implementati.Chp.Decimal.{padded, from_chars, stoull}

abbrev pub seq_len : ℕ
seq_len = 8

abbrev pub kvmsg_frames : ℕ
kvmsg_frames = 5

pub record Frame : Type 0 where
  pub present : Bool
  pub text : Bytes

-- The frames 0 to 4, and `m_props`.
pub record KvMsg : Type 0 where
  pub key : Frame
  pub seq : Frame
  pub uuid : Frame
  pub props : Frame
  pub body : Frame
  pub entries : Dict Bytes

abbrev pub here : Bytes → Frame
here s = record { present = true; text = s }

-- A getter: the text of a present frame.
abbrev pub text_of : Frame → Bytes
text_of f = if f.present then f.text else []

unfoldable pub set_sequence : ℕ → KvMsg → KvMsg
set_sequence n m = record m { seq = here (padded seq_len n) }

-- `m_present` is not initialised: what the memory holds is an argument.
pub record Memory : Type 0 where
  pub key : Bool
  pub seq : Bool
  pub uuid : Bool
  pub props : Bool
  pub body : Bool

abbrev left : Bool → Frame
left b = record { present = b; text = [] }

-- The constructor.
unfoldable pub kvmsg : Memory → ℕ → KvMsg
unfolding set_sequence
kvmsg junk n = set_sequence n (record {
  key = left junk.key;
  seq = left junk.seq;
  uuid = left junk.uuid;
  props = left junk.props;
  body = left junk.body;
  entries = [];
})

unfoldable pub get_sequence : KvMsg → Result ℕ
get_sequence m =
    if m.seq.present
    then (do guard (nat_eq seq_len (length m.seq.text)) contract; ok (from_chars m.seq.text))
    else ok 0

unfoldable pub get_key : KvMsg → Bytes
get_key m = text_of m.key

unfoldable pub set_key : Bytes → KvMsg → KvMsg
set_key k m = record m { key = here k }

unfoldable pub get_body : KvMsg → Bytes
get_body m = text_of m.body

unfoldable pub set_body : Bytes → KvMsg → KvMsg
set_body b m = record m { body = here b }

unfoldable pub size : KvMsg → ℕ
size m = if m.body.present then length m.body.text else 0

unfoldable pub get_uuid : KvMsg → Bytes
get_uuid m = text_of m.uuid

-- `fresh` is the random identifier that the code would draw.
unfoldable pub set_uuid : Bytes → Bytes → KvMsg → KvMsg
set_uuid fresh u m = record m { uuid = here (if is_empty u then fresh else u) }

unfoldable pub get_prop : Bytes → KvMsg → Result Bytes
get_prop name m = or_fault (lookup name m.entries) out_of_range

unfoldable pub add_prop : Bytes → Bytes → KvMsg → KvMsg
add_prop name val m = record m { entries = assign name val m.entries }

unfoldable pub set_prop : Bytes → KvMsg → KvMsg
set_prop p m = record m { props = here p }

module _ ⦃z : Zmqpp⦄ (archive : Archive) where
  unfoldable pub encode_props : KvMsg → KvMsg
  encode_props m = record m { props = here (archive.encode m.entries) }

  unfoldable pub decode_props : KvMsg → Result KvMsg
  decode_props m =
      if is_empty m.props.text
      then ok (record m { entries = [] })
      else do d ← archive.decode m.props.text; ok (record m { entries = d })

  -- The message sent, and the object after the call.
  unfoldable pub send : Bytes → KvMsg → Message × KvMsg
  unfolding encode_props
  send identity m =
      let m' = encode_props m in
      let msg =
        push_back
          (push_back (push_back (push_back (push_back [] m'.key.text) m'.seq.text) m'.uuid.text)
            m'.props.text)
          m'.body.text in
      (if is_empty identity then msg else push_front msg (c_str identity), m')

  unfoldable pub recv : Memory → Bytes → Message → Result KvMsg
  unfolding decode_props set_prop set_uuid set_key set_body kvmsg
  recv junk fresh msg = do
    guard (nat_eq (parts msg) kvmsg_frames) contract
    k ← get_text msg 0
    s ← get_text msg 1
    n ← stoull s
    u ← get_text msg 2
    p ← get_text msg 3
    b ← get_text msg 4
    decode_props
        (set_body b (set_prop p (set_uuid fresh u (set_sequence n (set_key k (kvmsg junk 0))))))
