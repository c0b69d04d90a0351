-- ===== src/System/Delete.antt =====
-- The deletion of a file: from the request to the list page that answers it.
use cherokee.Base.{if◌then◌else◌, Bool, List, [], ◌∷◌, ◌++◌, none, some}
use cherokee.Message.{Garbage, Response, new_response}
use cherokee.Send
use cherokee.Send.Build
use cherokee.Send.Build.{return, prepare}
use cherokee.Send.Page.{label}
use cherokee.System.Exchange.{rearmed, between}
use cherokee.System.Files.{Files, put_at}
use cherokee.Text.{Bytes, codes}
use cherokee.World.{Effect, Tables, set_at, remove_file}

-- What `remove` does to a file, which may fail.
abbrev gone : Build.Setting → Bytes → List Effect
gone s path = if s.can_remove path then remove_file path ∷ [] else []

-- The same connection, when the directory and the template are these.
abbrev pub listing : Build.Setting → List Bytes → List Bytes → List Bytes → Build.Setting
listing s names before after = record s { names = some names; template = before ++ (label ∷ after) }

module _ (s : Build.Setting) (can_append : Bytes → Bool) (garbage : Garbage) (t : Tables) where
  -- The response that starts over.
  abbrev listed : Response
  listed = record (new_response s.garbage) { body_file_name = codes "/" }

  abbrev after_delete : Bytes → Tables
  after_delete path =
      let t1 = between s can_append garbage t path in
      record {
        requests = set_at t1.requests s.client_fd none;
        responses = set_at t1.responses s.client_fd (some listed);
      }

  abbrev removal : Bytes → List Effect
  removal name = gone s (codes "filedir/" ++ name) ++ rearmed s

  -- The files after the first call.
  abbrev pub files_left : Files → Bytes → Files
  files_left files path = if s.can_remove path then put_at files path none else files
