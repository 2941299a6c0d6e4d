-- ===== src/Slave/Tests.antt =====
-- A frame of the file 12, for the directory "/tmp".
use deep_space_detection.Base.{
  ap, ◌∙◌, inr, arith, ==_refl, Run, Option, some, ℕ, zero, suc, ◌+◌, ◌/◌, ◌%◌, ◌≡◌, refl, ltb, leb,
  if◌then◌else◌, true, List, [], ◌∷◌, ◌++◌, length, replicate, ok, fault,
}
use deep_space_detection.Options.{IfDone}
use deep_space_detection.Options.Tests.{getopt, args}
use deep_space_detection.Slave.Main.{main}
use deep_space_detection.Slave.Main.Laws.{OnlyRequest, main-OnlyRequest}
use deep_space_detection.Protocol.Frame.{type_transport_data}
use deep_space_detection.Protocol.Tests.{
  request, request-IsFrame, transport, malloc, malloc_sized, malloc-Allocates,
}
use deep_space_detection.Protocol.Link.Tests.{Line, tty, arrived, blank, sum, sum-lt}
use deep_space_detection.Protocol.Link.{Tty, receive_frame}
use deep_space_detection.Protocol.Link.Send.{send_frame-short}
use deep_space_detection.Protocol.Link.Receive.{other_bytes, receive_frame-short}
use deep_space_detection.Protocol.Link.Wait.{done, wait_frame-arrives}
use deep_space_detection.Protocol.Stream.RoundTrip.{received}
use deep_space_detection.Slave.Loop.{Slave, default_frame, slave, serve, after_frame, handle}
use deep_space_detection.Slave.Loop.Laws.{default_frame-IsFrame}
use deep_space_detection.Slave.{receive_data}
use deep_space_detection.Slave.Laws.{receive_data_lem}

-- At most `k` decimal digits.
abbrev decimal : ℕ → ℕ → List ℕ
decimal zero n = []
decimal (suc k) n =
    let rest = decimal k (n / 10) in if ltb n 10 then (48 + n) ∷ [] else rest ++ (48 + n % 10) ∷ []

abbrev tmp : List ℕ
tmp = b'/' ∷ b't' ∷ b'm' ∷ b'p' ∷ []

receive_data_lem_example :
    receive_data (decimal 10) malloc (λ name. true) tmp (transport 12 100) request (λ name. []) ≡ (
      if leb (length (decimal 10 12)) 3
      then ok (λ name. [], record request { frame_type = type_transport_data })
      else fault)
receive_data_lem_example =
    receive_data_lem (decimal 10) malloc (λ name. true) tmp (replicate 13 0xaa) (transport 12 100)
      request (λ name. []) refl refl

-- A line on which what is written goes away.
abbrev away : Tty Line
away = record { read = tty.read; write = λ line out. (line, some (length out)) }

-- One round of the slave, over a line that holds a request.
abbrev one_round : Run (Option (Slave Line))
one_round =
    slave (decimal 10) malloc (λ name. true) tmp away (some blank) 1 5 arrived request (λ name. [])

arrives :
    receive_frame away malloc (some blank) arrived request
    ≡ ok ([], some 18, received blank request sum)
arrives =
    receive_frame-short away malloc blank request sum (1 ∷ 2 ∷ []) request-IsFrame refl (inr refl)
      sum-lt (malloc-Allocates 14) (malloc-Allocates 530) (omega arith) arrived
      (some (other_bytes request sum ++ 1 ∷ 2 ∷ []) ∷ []) [] request refl refl
    ∙ ap (λ b. if b then ok ([], some 18, received blank request sum) else fault) (==_refl sum)

-- The request is taken from the line, and the next frame is to be one of data.
one_round-run :
    one_round
    ≡ ok (
        some (record {
          line = [];
          input_frame = received blank request sum;
          output_frame = record default_frame {
            frame_type = type_transport_data;
            n_file = request.n_file;
            n_frame = 1;
            data_len = 512;
          };
          files = λ name. [];
        }))
unfolding slave serve after_frame handle
one_round-run =
    rw
      (
        send_frame-short away malloc arrived default_frame default_frame-IsFrame (inr refl)
            (malloc-Allocates 16),
        wait_frame-arrives away malloc (some blank) 5 0 17 default_frame done arrives (omega arith),
      )
      refl

main-OnlyRequest_example :
    IfDone (OnlyRequest (λ name. some arrived) away (b'a' ∷ []) (λ name. [])) (
      main
        (decimal 10)
        malloc
        (λ name. true)
        (λ name. some arrived)
        away
        (some blank)
        getopt
        3
        args
        1
        5
        request
        (λ name. []))
main-OnlyRequest_example =
    main-OnlyRequest (decimal 10) malloc (λ name. true) malloc_sized (malloc-Allocates 16)
      (λ name. some arrived) away (some blank) getopt 3 args 1 5 request (λ name. []) (omega arith)
