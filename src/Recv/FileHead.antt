-- ===== src/Recv/FileHead.antt =====
-- The header of an uploaded file, in `HandleRecv::process`.
use cherokee.Base.{
  ℕ, zero, suc, ◌+◌, true, false, [], ◌∷◌, ◌++◌, none, some, ◌==◌, if◌then◌else◌, length, take,
  drop,
}
use cherokee.Fault.{Result, ok, fault, undefined, out_of_fuel, ◌>>=◌}
use cherokee.Message.{Request, file_content}
use cherokee.Text.{Bytes, codes, crlf, equal, find, is_space}

unfoldable pub remove_spaces : Bytes → Bytes
remove_spaces [] = []
remove_spaces (c ∷ s) = if is_space c then remove_spaces s else c ∷ remove_spaces s

-- The bytes up to the closing quote, put behind the name so far. The loop has no other end: with
-- no quote it reads outside the line.
unfoldable pub read_name : Bytes → Bytes → Result Bytes
read_name name [] = fault undefined
read_name name (c ∷ s) = if c == b'"' then ok name else read_name (name ++ c ∷ []) s

-- A line of the file's header that is not empty.
unfoldable pub file_line : Request → Bytes → Result Request
file_line r line = elim (find (codes "filename") line) [
  | none ↦ ok r
  | some i ↦ do
    name ← read_name r.recv_file_name (drop (i + length (codes "filename=\"")) line)
    ok (record r { recv_file_name = remove_spaces name })
]

unfoldable pub file_head_loop : ℕ → Request → Result Request
file_head_loop zero r = fault out_of_fuel
file_head_loop (suc f) r = elim (find crlf r.recv_msg) [
  | none ↦ ok r
  | some i ↦
      let line = take (i + 2) r.recv_msg in
      let erased = record r { recv_msg = drop (i + 2) r.recv_msg } in
      elim (equal line crlf) [
        | true ↦ ok (record erased { file_msg_status = file_content })
        | false ↦ file_line erased line >>= λ r'. file_head_loop f r'
      ]
]

unfoldable pub take_file_head : Request → Result Request
take_file_head r = file_head_loop (suc (length r.recv_msg)) r
