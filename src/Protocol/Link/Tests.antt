-- ===== src/Protocol/Link/Tests.antt =====
-- Runs over a line that answers each `read` with what it holds next.
use deep_space_detection.Base.{
  ℕ, ◌==◌, ◌≡◌, ◌<◌, ◌^◌, ◌∙◌, refl, ap, arith, List, [], ◌∷◌, ◌++◌, Option, some, none, ok, fault,
  length, inr, ==_refl, if◌then◌else◌,
}
use deep_space_detection.Crc.Reference.{modbus}
use deep_space_detection.Crc.Detect.{modbus-lt}
use deep_space_detection.Protocol.Frame.{Frame, type_control, control_resend}
use deep_space_detection.Protocol.Stream.Layout.{command_bytes, command_bytes-IsBytes}
use deep_space_detection.Protocol.Stream.RoundTrip.{received}
use deep_space_detection.Protocol.Tests.{
  request, request-IsFrame, transport, malloc, malloc-Allocates,
}
use deep_space_detection.Protocol.Link.{Tty, take_type, receive_frame, wait_frame}
use deep_space_detection.Protocol.Link.Receive.{first_bytes, other_bytes, receive_frame-short}
use deep_space_detection.Protocol.Link.Wait.{Fails, done, more, wait_frame-arrives}

abbrev pub Line : Type 0
Line = List (Option (List ℕ))

abbrev next_of : Line → ℕ → Line × Option (List ℕ)
next_of [] n = ([], none)
next_of (o ∷ line) n = (line, o)

abbrev pub tty : Tty Line
tty = record { read = next_of; write = λ line out. (line ++ some out ∷ [], some (length out)) }

abbrev pub sum : ℕ
sum = modbus (command_bytes request)

pub sum-lt : sum < 2 ^ 16
sum-lt =
    modbus-lt (command_bytes request) (command_bytes-IsBytes request request-IsFrame.header_bytes)

abbrev pub arrived : Line
arrived = some (first_bytes request) ∷ some (other_bytes request sum ++ 1 ∷ 2 ∷ []) ∷ []

abbrev pub blank : Frame
blank = transport 0 0

receive_frame-short_example : receive_frame tty malloc (some blank) arrived request ≡ (
    if sum == modbus (command_bytes request)
    then ok ([], some 18, received blank request sum)
    else fault)
receive_frame-short_example =
    receive_frame-short tty malloc blank request sum (1 ∷ 2 ∷ []) request-IsFrame refl (inr refl)
      sum-lt (malloc-Allocates 14) (malloc-Allocates 530) (omega arith) arrived
      (some (other_bytes request sum ++ 1 ∷ 2 ∷ []) ∷ []) [] request refl refl

fails : Fails tty malloc (some blank) 1 (none ∷ arrived) request arrived request
unfolding receive_frame take_type
fails = more refl done

arrives :
    receive_frame tty malloc (some blank) arrived request
    ≡ ok ([], some 18, received blank request sum)
arrives =
    receive_frame-short_example
    ∙ ap (λ b. if b then ok ([], some 18, received blank request sum) else fault) (==_refl sum)

wait_frame-arrives_example :
    wait_frame tty malloc (some blank) 2 (none ∷ arrived) request request
    ≡ ok (
        some (
          [],
          received blank request sum,
          record request { frame_type = type_control; n_file = control_resend },
        ))
wait_frame-arrives_example =
    wait_frame-arrives tty malloc (some blank) 2 1 17 request fails arrives (omega arith)
