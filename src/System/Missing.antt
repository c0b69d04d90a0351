-- ===== src/System/Missing.antt =====
-- A download of a file that is not there: from the request to the redirection that answers it.
use cherokee.Base.{Bool, List, ◌∷◌, ◌++◌, none, some}
use cherokee.Message.{Garbage, Response, new_response}
use cherokee.Recv
use cherokee.Send
use cherokee.Send.Build
use cherokee.Send.Build.{Sender}
use cherokee.Send.RoutingLaws.{path_of}
use cherokee.System.Exchange.{rearmed, between}
use cherokee.System.Files.{Files}
use cherokee.Text.{Bytes, codes}
use cherokee.World.{Effect, Tables, set_at, open_file}

module _ (s : Build.Setting) (can_append : Bytes → Bool) (garbage : Garbage) (t : Tables)
    (name : Bytes) where
  abbrev path : Bytes
  path = path_of (codes "downl") name

  abbrev asked : Tables
  asked = between s can_append garbage t path

  -- The response that starts over.
  abbrev redirecting : Response
  redirecting = record (new_response s.garbage) { body_file_name = codes "/redirect" }

  abbrev after_miss : Tables
  after_miss = record {
    requests = set_at asked.requests s.client_fd none;
    responses = set_at asked.responses s.client_fd (some redirecting);
  }

  abbrev opening : List Effect
  opening = open_file (codes "filedir/" ++ name) ∷ rearmed s
