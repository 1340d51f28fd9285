-- ===== src/Proto/Frame/Typed.antt =====
-- The values that a frame can hold (src/proto/frame.rs).
use web3_pi_ups_service.Prelude.{All}
use web3_pi_ups_service.Proto.Frame.{Frame, IsByte}

-- Each field is a byte, and the payload is made of bytes.
pub record IsTypedFrame (f : Frame) : Type 0 where
  pub dst : IsByte f.dst
  pub src : IsByte f.src
  pub class : IsByte f.class
  pub op : IsByte f.op
  pub flags : IsByte f.flags
  pub seq : IsByte f.seq
  pub payload : All IsByte f.payload
