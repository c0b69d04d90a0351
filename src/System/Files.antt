-- ===== src/System/Files.antt =====
-- The files of the server, as the effects of the handlers change them.
use cherokee.Base.{ℕ, List, [], ◌∷◌, ◌++◌, Option, none, some, ◌≡◌, refl, length, if◌then◌else◌}
use cherokee.Base.Int.{ℤ, pos, neg_ℕ}
use cherokee.Send.Build.{Setting}
use cherokee.Text.{Bytes, equal}
use cherokee.World.{
  Effect, add_wait, modify_wait, delete_wait, set_non_blocking, shut_down, close_fd, append_file,
  write_file, open_file, remove_file, sent,
}

-- By path; `none` where there is no file.
abbrev pub Files : Type 0
Files = Bytes → Option Bytes

abbrev pub contents : Option Bytes → Bytes
contents none = []
contents (some text) = text

abbrev pub put_at : Files → Bytes → Option Bytes → Files
put_at files path v p = if equal path p then v else files p

-- An ofstream to append makes the file if need be; one to overwrite empties it.
abbrev pub apply : Files → Effect → Files
apply files (append_file path bytes) = put_at files path (some (contents (files path) ++ bytes))
apply files (write_file path bytes) = put_at files path (some bytes)
apply files (remove_file path) = put_at files path none
apply files (add_wait fd events) = files
apply files (modify_wait fd events) = files
apply files (delete_wait fd) = files
apply files (set_non_blocking fd) = files
apply files (shut_down fd) = files
apply files (close_fd fd) = files
apply files (open_file path) = files
apply files (sent bytes) = files

abbrev pub apply_all : Files → List Effect → Files
apply_all files [] = files
apply_all files (e ∷ es) = apply_all (apply files e) es

pub apply_all-append :
    (files : Files) (xs ys : List Effect)
    → apply_all files (xs ++ ys) ≡ apply_all (apply_all files xs) ys
apply_all-append files [] ys = refl
apply_all-append files (x ∷ xs) ys = apply_all-append (apply files x) xs ys

-- How `open` names the files: by a path, and back.
pub record Naming : Type 0 where
  pub descriptor : Bytes → ℕ
  pub path : ℤ → Bytes

abbrev pub opened : Naming → Bytes → Option Bytes → ℤ
opened n path none = neg_ℕ 1
opened n path (some text) = pos (n.descriptor path)

-- What the sending handler finds where these are the files.
abbrev pub on_files : Files → Naming → Setting → Setting
on_files files n s = record s {
  open_fd = λ path. opened n path (files path);
  file_size = λ fd. length (contents (files (n.path fd)));
  file_bytes = λ fd. contents (files (n.path fd));
}
