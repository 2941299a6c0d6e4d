-- ===== src/Session/Tests.antt =====
-- Sessions over two queues.
use deep_space_detection.Base.{
  ◌+◌, ◌*◌, ◌≡◌, refl, arith, true, [], ◌∷◌, length, replicate, replicate-IsBytes, none, some, ok,
  fault,
}
use deep_space_detection.Protocol.Tests.{request, request-IsFrame, transport-IsFrame, malloc}
use deep_space_detection.Protocol.Link.Tests.{blank}
use deep_space_detection.Protocol.Wire.Tests.{
  Queues, slave_end, master_end, to_master, to_slave, allocates,
}
use deep_space_detection.Slave.Loop.{Slave}
use deep_space_detection.Master.{total_frames}
use deep_space_detection.Master.Loop.{Img, Master, serve}
use deep_space_detection.Session.Request.{start, request-AreUnset}
use deep_space_detection.Session.Exchange.{request-answered}

abbrev img : Img
img = record { name = b'/' ∷ b'a' ∷ []; file = replicate 600 9 }

request-AreUnset_example :
    (sl : Slave Queues) × (start slave_end master_end to_master malloc blank allocates
        (λ n. [])
        (λ name. true)
        []
        none
        5
        ([], [])
        request
        (λ name. [])
      ≡ ok (some sl))
    × (serve
          (λ path. path)
          malloc
          (λ name. true)
          (none ∷ [])
          []
          master_end
          (some blank)
          3
          4
          (record {
            line = sl.line;
            input_frame = request;
            output_frame = request;
            files = λ name. [];
          })
        ≡ fault)
request-AreUnset_example =
    request-AreUnset slave_end master_end to_master malloc blank allocates (λ path. path)
      (λ name. true) (none ∷ []) [] (λ n. []) (λ name. true) [] none 2 3 5 ([], []) request request
      request (λ name. []) (λ name. []) (refl, tt) refl

request-answered_example :
    (sl : Slave Queues) × (m : Master Queues) × (start slave_end master_end to_master malloc blank
        allocates
        (λ n. [])
        (λ name. true)
        []
        none
        5
        ([], [])
        request
        (λ name. [])
      ≡ ok (some sl))
    × (serve
          (λ path. path)
          malloc
          (λ name. true)
          (some img ∷ [])
          []
          master_end
          (some blank)
          1
          4
          (record {
            line = sl.line;
            input_frame = request;
            output_frame = request;
            files = λ name. [];
          })
        ≡ ok (some m))
    × (length m.line.1 ≡ total_frames (length img.file) * 530 + 16)
request-answered_example =
    request-answered slave_end master_end to_master to_slave malloc blank allocates (λ s out. refl)
      (λ path. path) (λ name. true) (some img ∷ []) [] (λ n. []) (λ name. true) [] none 3 5 img
      ([], []) request request request (λ name. []) (λ name. []) refl
      (replicate-IsBytes 600 9 (omega arith)) (transport-IsFrame 0 0 (omega arith) (omega arith))
      request-IsFrame refl refl
