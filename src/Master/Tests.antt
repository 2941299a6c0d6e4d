-- ===== src/Master/Tests.antt =====
-- An answer to a request, over a line that keeps the data.
use deep_space_detection.Options.{Outcome, done, ◌>>=◌, IfDone, options, in_turn, unless_none}
use deep_space_detection.Options.Tests.{getopt, args}
use deep_space_detection.Master.Main.{System, set_option, default_opt, parse, main}
use deep_space_detection.Master.Main.Laws.{chosen, parse_lem, OnlyReads, main-OnlyReads}
use deep_space_detection.Protocol.Link.Wait.{done as none_failed, wait_frame-arrives}
use deep_space_detection.Protocol.Link.Receive.{first_bytes, other_bytes, receive_frame-short}
use deep_space_detection.Protocol.Link.{receive_frame}
use deep_space_detection.Protocol.Stream.RoundTrip.{received}
use deep_space_detection.Protocol.Stream.Layout.{command_bytes, command_bytes-IsBytes}
use deep_space_detection.Crc.Reference.{modbus}
use deep_space_detection.Crc.Detect.{modbus-lt}
use deep_space_detection.Base.{
  arith, ==_refl, ap, ◌∙◌, inl, some, Option, true, none, fault, ◌∷◌, ℕ, ◌≡◌, ◌-◌, ◌%◌, ◌==◌,
  if◌then◌else◌, refl, List, [], ok, length, take, replicate,
}
use deep_space_detection.Protocol.Frame.{Frame, IsFrame}
use deep_space_detection.Protocol.Link.Tests.{tty, Line, blank}
use deep_space_detection.Master.Loop.{Img, Master, default_frame, handle, after_frame, serve}
use deep_space_detection.Master.Loop.Laws.{handle_data}
use deep_space_detection.Protocol.Tests.{
  malloc-Allocates, transport, malloc, malloc_sized, request, request-IsFrame,
}
use deep_space_detection.Master.{total_frames, send_chunks}
use deep_space_detection.Master.Chunks.{note_data, send_chunks_lem}

abbrev image : List ℕ
image = replicate 600 9

abbrev first : Frame
first = record request { frame_type = 5; data_len = 512 }

send_chunks_lem_example :
    (out : Frame) × (send_chunks note_data (total_frames (length image)) 0 image 0 first []
      ≡ ok (if length image % 512 == 0 then take (length image - 512) image else image, out))
send_chunks_lem_example = send_chunks_lem image first refl request-IsFrame.data_length

abbrev imgs : List (Option Img)
imgs = some (record { name = b'/' ∷ b'a' ∷ []; file = image }) ∷ []

handle_data_example :
    handle
      (λ path. path)
      malloc
      (λ name. true)
      imgs
      (b'/' ∷ [])
      tty
      none
      []
      (transport 0 100)
      first
      (λ name. [])
    ≡ fault
handle_data_example =
    handle_data (λ path. path) malloc (λ name. true) imgs (b'/' ∷ []) malloc_sized tty none []
      (transport 0 100) first (λ name. []) refl

abbrev system : System
system = record {
  wordexp = λ word. some word;
  stat = λ name. some 3;
  contents = λ name. some (1 ∷ 2 ∷ 3 ∷ []);
}

parse_lem_example : parse system malloc getopt 3 args ≡ (
    unless_none (malloc 32) >>= λ p.
    chosen system malloc (in_turn set_option (options getopt 3 args) default_opt))
parse_lem_example = parse_lem system malloc getopt 3 args (omega arith)

abbrev control : Frame
control = record request { frame_type = 1 }

control-IsFrame : IsFrame control
control-IsFrame = record {
  header_length = refl;
  header_bytes = omega arith;
  address_range = omega arith;
  frame_type_range = omega arith;
  n_file_range = omega arith;
  n_frame_range = omega arith;
  data_len_range = omega arith;
  data_length = request-IsFrame.data_length;
  data_range = request-IsFrame.data_range;
  check_sum_range = omega arith;
}

abbrev check : ℕ
check = modbus (command_bytes control)

-- A line that holds a control frame.
abbrev arrived : Line
arrived = some (first_bytes control) ∷ some (other_bytes control check) ∷ []

arrives :
    receive_frame tty malloc (some blank) arrived request
    ≡ ok ([], some 16, received blank control check)
arrives =
    receive_frame-short tty malloc blank control check [] control-IsFrame refl (inl refl)
      (modbus-lt (command_bytes control)
        (command_bytes-IsBytes control control-IsFrame.header_bytes))
      (malloc-Allocates 14) (malloc-Allocates 530) (omega arith) arrived
      (some (other_bytes control check) ∷ []) [] request refl refl
    ∙ ap (λ b. if b then ok ([], some 16, received blank control check) else fault) (==_refl check)

abbrev one_round : Outcome (Master Line)
one_round =
    main system malloc (λ path. path) (λ name. true) (λ name. some arrived) tty (some blank) getopt
      3 args 1 5 request (λ name. [])

-- The control frame is taken from the line.
one_round-run :
    one_round
    ≡ done (record {
      line = [];
      input_frame = received blank control check;
      output_frame = record default_frame { frame_type = 1; n_frame = 1 };
      files = λ name. [];
    })
unfolding main serve after_frame handle options
one_round-run =
    rw
      (
        parse_lem_example,
        wait_frame-arrives tty malloc (some blank) 5 0 15 default_frame none_failed arrives
            (omega arith),
      )
      refl

main-OnlyReads_example :
    IfDone (OnlyReads system malloc (λ name. some arrived) tty (b'a' ∷ []) (λ name. [])) one_round
main-OnlyReads_example =
    main-OnlyReads system malloc (λ path. path) (λ name. true) malloc_sized (λ name. some arrived)
      tty (some blank) getopt 3 args 1 5 request (λ name. []) (omega arith)
