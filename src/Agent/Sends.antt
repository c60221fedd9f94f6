-- ===== src/Agent/Sends.antt =====
-- A request that the client reports as sent (src/cli.cc).
use flora.Base.{◌≡◌, refl, Bool, true, false, ◌∷◌, Option, none, some, if◌then◌else◌, ltb, arith}
use flora.Protocol.{cli_success, cli_emonitor}
use flora.Message.Data.{Frame}
use flora.Client.Requests.{Client, send_request, send_frame}

frame-sent :
    (b takes : Bool) (cl : Client) (f : Frame)
    → (if b then send_frame takes cl f else send_request takes cl none).1 ≡ cli_success
    → (if b then send_frame takes cl f else send_request takes cl none).0.sent ≡ f ∷ cl.sent
frame-sent true true cl f e = refl
frame-sent true false cl f e = absurd (ground arith)
frame-sent false takes cl f e = absurd (ground arith)

-- The frame is the one that was serialized; a monitor sends nothing.
pub request-sent :
    (monitor takes : Bool) (cl : Client) (o : Option Frame)
    → (if monitor then (cl, cli_emonitor) else send_request takes cl o).1 ≡ cli_success
    → (f : Frame) × (o ≡ some f)
      × ((if monitor then (cl, cli_emonitor) else send_request takes cl o).0.sent ≡ f ∷ cl.sent)
request-sent true takes cl o e = absurd (ground arith)
request-sent false takes cl none e = absurd (ground arith)
request-sent false takes cl (some f) e = (f, refl, frame-sent (ltb 0 f.size) takes cl f e)
