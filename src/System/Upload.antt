-- ===== src/System/Upload.antt =====
-- An upload and its answer: the redirection to the list page.
use cherokee.Base.{ℕ, List, some, ◌≡◌}
use cherokee.Fault.{ok}
use cherokee.Recv
use cherokee.Recv.{would_block}
use cherokee.Send
use cherokee.Send.{SendStop}
use cherokee.Send.Build
use cherokee.Send.Pieces.{wire}
use cherokee.System.Exchange.{IsReady}
use cherokee.System.Files.{Files, apply_all}
use cherokee.Text.{Bytes}
use cherokee.World.{Effect, Tables}

-- The file holds `text`, the client has got these bytes, and the connection is ready.
abbrev pub Stores :
    Recv.Setting
    → Build.Setting
    → Tables
    → Files
    → List Bytes
    → List ℕ
    → SendStop
    → Bytes
    → Bytes
    → Bytes
    → Type 0
Stores up s t files chunks ns stop path text bytes =
    (t1 : Tables) × (done1 : List Effect) × (t2 : Tables) × (done2 : List Effect) × (Recv.process up
        t chunks would_block
      ≡ ok (t1, done1))
    × (Send.process s t1 ns stop ≡ ok (t2, done2))
    × (apply_all files done1 path ≡ some text)
    × (wire done2 ≡ bytes)
    × IsReady up t2 done2
