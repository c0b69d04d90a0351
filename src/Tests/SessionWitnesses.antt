-- ===== src/Tests/SessionWitnesses.antt =====
-- The theorem on a session, at a concrete one.
use cherokee.Base.{true, List, [], ◌∷◌, refl, arith}
use cherokee.Recv.{would_block}
use cherokee.Send.{again}
use cherokee.System.{no_entries}
use cherokee.System.Session.{Ask, want_file, want_page, replies, Session, IsWellAsked, serve-all}
use cherokee.Tests.Data.{no_garbage}
use cherokee.Tests.SendWitnesses.{to_seven}
use cherokee.Tests.SystemWitnesses.{
  ones, ones-AreEnough, seven_reads, head_size, page_size, page_head_size, host, host-AreHeaders,
  host-AreKept, a-IsToken, version-IsToken,
}
use cherokee.Text.{codes}

abbrev for_file : Ask
for_file = record {
  wants = want_file (codes "a") (codes "abc") 9;
  first = codes "GET /downl/a HTTP/1.1\r\nHo";
  rest = codes "st: h:80\r\n\r\n" ∷ [];
  ends = would_block;
  version = codes "HTTP/1.1";
  headers = host;
  counts = ones 300;
  stop = again;
}

for_file-IsWellAsked : IsWellAsked to_seven for_file
for_file-IsWellAsked = record {
  written = refl;
  version = version-IsToken;
  headers = host-AreHeaders;
  kept = host-AreKept;
  there = (a-IsToken, omega arith, refl, refl, refl, omega arith);
  enough = ones-AreEnough _ 300 (omega (arith, head_size));
}

abbrev for_page : Ask
for_page = record {
  wants = want_page (codes "." ∷ codes "a.txt" ∷ []) (codes "<table>" ∷ []) (codes "</table>" ∷ []);
  first = codes "GET / HT";
  rest = codes "TP/1.1\r\n\r\n" ∷ [];
  ends = would_block;
  version = codes "HTTP/1.1";
  headers = [];
  counts = ones 700;
  stop = again;
}

for_page-IsWellAsked : IsWellAsked to_seven for_page
for_page-IsWellAsked = record {
  written = refl;
  version = version-IsToken;
  headers = tt;
  kept = tt;
  there = (refl, refl, (λ e. cc, tt), omega (arith, page_size));
  enough = ones-AreEnough _ 700 (omega (arith, page_size, page_head_size));
}

abbrev asks : List Ask
asks = for_file ∷ for_page ∷ for_file ∷ []

serve-all_example : Session seven_reads to_seven no_entries asks (replies asks)
serve-all_example =
    serve-all to_seven (λ path. true) no_garbage no_entries asks (refl, refl) refl
      (for_file-IsWellAsked, (for_page-IsWellAsked, (for_file-IsWellAsked, tt))) (λ e. cc)
