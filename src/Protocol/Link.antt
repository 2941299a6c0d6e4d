-- ===== src/Protocol/Link.antt =====
-- `send_frame`, `receive_frame` and `wait_frame` over the serial line.
pub mod Send
pub mod Receive
pub mod Wait
pub mod Tests
use deep_space_detection.Base.{
  length, ◌+◌, ltb, u16, zero, of_le, replicate, store, ◌-◌, load, suc, ℕ, List, Option, none, some,
  ◌==◌, if◌then◌else◌, Run, ok, fault, ◌>>=◌,
}
use deep_space_detection.Protocol.Frame.{
  control_resend, size_cmd_type, Frame, type_control, type_request_data, type_transport_data,
  size_control, size_request_data, size_transport_data,
}
use deep_space_detection.Protocol.Stream.{bit_stream2frame, Malloc, frame2bit_stream}

-- The file descriptor of a terminal: `read` and `write` of <unistd.h>, over the states of the
-- line. `none` is the result -1; `write` returns how many bytes it took.
pub record Tty {ℓ} (S : Type ℓ) : Type ℓ where
  pub read : S → ℕ → S × Option (List ℕ)
  pub write : S → List ℕ → S × Option ℕ

-- The size that `send_frame` asks for; other types leave it indeterminate.
unfoldable pub send_size : ℕ → Run ℕ
send_size frame_type =
    if frame_type == type_request_data
    then ok size_request_data
    else if frame_type == type_transport_data
    then ok size_transport_data
    else if frame_type == type_control
    then ok size_control
    else fault

-- The size that `receive_frame` reads: no case of its switch ends in a `break`, so that each
-- known type falls through to the last one.
unfoldable pub receive_size : ℕ → Run ℕ
receive_size frame_type =
    if frame_type == type_control
    then ok size_transport_data
    else if frame_type == type_request_data
    then ok size_transport_data
    else if frame_type == type_transport_data
    then ok size_transport_data
    else fault

-- An array of indeterminate bytes; all uses of a null pointer fault.
abbrev pub unless_null : {A : Type 0} → Option A → Run A
unless_null none = fault
unless_null (some a) = ok a

module _ {ℓ} {S : Type ℓ} (tty : Tty S) (malloc : Malloc) where
  unfoldable pub send_frame : S → Frame → Run (S × Option ℕ)
  send_frame s f = do
    size ← send_size f.frame_type
    bit_stream ← unless_null (malloc size)
    (n, bit_stream) ← frame2bit_stream f bit_stream
    out ← load bit_stream 0 size
    ok (if n == size then tty.write s out else (s, none))

  module _ (fresh : Option Frame) where
    -- What the second `read` brought. A failing `read` adds -1 to the 8 bytes of the first. The
    -- result of `bit_stream2frame` is copied from, also where it is a null pointer.
    unfoldable pub take_body : S → Frame → List ℕ → Option (List ℕ) → Run (S × Option ℕ × Frame)
    take_body s f buffer none = ok (s, none, f)
    take_body s f buffer (some more) = do
      buffer ← store buffer size_cmd_type more
      p ← bit_stream2frame malloc fresh buffer
      g ← unless_null p
      ok (s, some (size_cmd_type + length more), g)

    -- From the type on, which stands in the last two of the eight bytes `temp`.
    unfoldable pub receive_rest : S → Frame → List ℕ → Run (S × Option ℕ × Frame)
    receive_rest s f temp = do
      type_bytes ← load temp (size_cmd_type - 2) 2
      size ← receive_size (of_le type_bytes)
      buffer ← unless_null (malloc size)
      buffer ← store buffer 0 temp
      let (s, got) = tty.read s (size - size_cmd_type)
      take_body s f buffer got

    -- What the first `read` brought.
    unfoldable pub take_type : S → Frame → Option (List ℕ) → Run (S × Option ℕ × Frame)
    take_type s f none = ok (s, none, f)
    take_type s f (some bytes) = do
      temp ← store (replicate size_cmd_type 0) 0 bytes
      if ltb (length bytes) size_cmd_type then ok (s, none, f) else receive_rest s f temp

    -- `receive_frame`, where `f` is what `p_frame` points to and `fresh` is the frame that
    -- `bit_stream2frame` allocates: the line, the result and `*p_frame` afterwards. The result is
    -- -1 where a `read` fails or the first one is short.
    unfoldable pub receive_frame : S → Frame → Run (S × Option ℕ × Frame)
    receive_frame s f = let (s, got) = tty.read s size_cmd_type in take_type s f got

    -- The switch on the result, and the test of the loop; `again` is the next round.
    unfoldable pub wait_next :
        (S → Frame → Frame → Run (Option (S × Frame × Frame)))
        → S
        → Option ℕ
        → Frame
        → Frame
        → Run (Option (S × Frame × Frame))
    wait_next again s none input output = again s input output
    wait_next again s (some zero) input output = do
      (s, _) ← send_frame s input
      again s input (record output { n_frame = u16 (output.n_frame + 1) })
    wait_next again s (some (suc m)) input output = ok (some (s, input, output))

    -- The loop of `wait_frame`, with fuel for the rounds. `none`: no frame came in that many.
    unfoldable pub wait_loop : ℕ → S → Frame → Frame → Run (Option (S × Frame × Frame))
    wait_loop zero s input output = ok none
    wait_loop (suc k) s input output = do
      (s, n, input) ← receive_frame s input
      wait_next (wait_loop k) s n input output

    -- `wait_frame`: the line, `*p_input_frame` and `*p_output_frame` afterwards.
    unfoldable pub wait_frame : ℕ → S → Frame → Frame → Run (Option (S × Frame × Frame))
    wait_frame k s input output =
        wait_loop k s input (record output { frame_type = type_control; n_file = control_resend })
