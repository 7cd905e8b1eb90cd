-- ===== src/Body/Response/Loops.antt =====
-- The loops of `ResponseBody` are those over `FuseBody::poll_frame`.
use conjure_rust_runtime.Prelude.{◌≡◌, refl, Bool, true, false, List, [], ◌∷◌}
use conjure_rust_runtime.Body.{Bytes, Frame, data_frame, trailers}
use conjure_rust_runtime.Body.Response.{
  Inner, inner_frame, inner_error, inner_end, inner_pending, Polled, item, finished, failed,
  pending, fuse_poll, next_data, fill,
}

-- One round of `poll_next`.
abbrev next_round : Bool × List Inner × Polled Frame → Bool × List Inner × Polled Bytes
next_round (d, is, item (data_frame b)) = (d, is, item b)
next_round (d, is, item trailers) = next_data d is
next_round (d, is, finished) = (d, is, finished)
next_round (d, is, failed) = (d, is, failed)
next_round (d, is, pending) = (d, is, pending)

next_data_lem : (d : Bool) (is : List Inner) → next_data d is ≡ next_round (fuse_poll d is)
unfolding next_data fuse_poll
next_data_lem true is = refl
next_data_lem false [] = refl
next_data_lem false (inner_frame (data_frame b) ∷ is) = refl
next_data_lem false (inner_frame trailers ∷ is) = refl
next_data_lem false (inner_error ∷ is) = refl
next_data_lem false (inner_end ∷ is) = refl
next_data_lem false (inner_pending ∷ is) = refl

-- One round of `poll_fill_buf`.
abbrev fill_round : Bool × List Inner × Polled Frame → Bool × List Inner × Polled Bytes
fill_round (d, is, item (data_frame [])) = fill d is
fill_round (d, is, item (data_frame (b ∷ bs))) = (d, is, item (b ∷ bs))
fill_round (d, is, item trailers) = fill d is
fill_round (d, is, finished) = (d, is, item [])
fill_round (d, is, failed) = (d, is, failed)
fill_round (d, is, pending) = (d, is, pending)

fill_lem : (d : Bool) (is : List Inner) → fill d is ≡ fill_round (fuse_poll d is)
unfolding fill fuse_poll
fill_lem true is = refl
fill_lem false [] = refl
fill_lem false (inner_frame (data_frame []) ∷ is) = refl
fill_lem false (inner_frame (data_frame (b ∷ bs)) ∷ is) = refl
fill_lem false (inner_frame trailers ∷ is) = refl
fill_lem false (inner_error ∷ is) = refl
fill_lem false (inner_end ∷ is) = refl
fill_lem false (inner_pending ∷ is) = refl
