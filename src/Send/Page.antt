-- ===== src/Send/Page.antt =====
-- `getStatusLine`, `getMessageHeader`, `getFileListPage` and `getFileVec` of `HandleSend`.
use cherokee.Base.{◌||◌, List, [], ◌∷◌, ◌++◌, Option, none, some, if◌then◌else◌}
use cherokee.Fault.{Result, ok, fault, undefined, hangs, ◌>>=◌}
use cherokee.Text.{Bytes, codes, equal, crlf}

-- The line that `getStatusLine` returns.
unfoldable pub status_line : Bytes → Bytes → Bytes → Bytes
status_line version code description = version ++ (32 ∷ (code ++ (32 ∷ (description ++ crlf))))

-- A line for `contentType`; any other text gives none.
unfoldable pub type_line : Bytes → Bytes
type_line type =
    if equal type (codes "html")
    then codes "Content-Type: text/html;charset=UTF-8\r\n"
    else if equal type (codes "file")
    then codes "Content-Type: application/octet-stream\r\n"
    else []

-- `name` and the value, unless the value is empty.
unfoldable pub option_line : Bytes → Bytes → Bytes
option_line name [] = []
option_line name (c ∷ value) = name ++ ((c ∷ value) ++ crlf)

unfoldable pub message_header : Bytes → Bytes → Bytes → Bytes → Bytes
message_header content_length content_type location range =
    option_line (codes "Content-Length: ") content_length
    ++ (type_line content_type
        ++ (option_line (codes "Location: ") location
            ++ (option_line (codes "Content-Range: 0-") range
                ++ codes "Connection: keep-alive\r\n")))

-- The names in the directory, without "." and "..".
unfoldable pub file_vec : List Bytes → List Bytes
file_vec [] = []
file_vec (name ∷ names) =
    let rest = file_vec names in
    if equal name (codes ".") || equal name (codes "..") then rest else name ∷ rest

-- `readdir` on the null pointer of an `opendir` that failed is undefined.
abbrev pub get_file_vec : Option (List Bytes) → Result (List Bytes)
get_file_vec none = fault undefined
get_file_vec (some names) = ok (file_vec names)

abbrev pub label : Bytes
label = codes "<!--filelist_label-->"

-- The row of one file.
unfoldable pub row : Bytes → Bytes
row name =
    codes "            <tr><td class=\"col1\">"
    ++ (name
        ++ (codes "</td> <td class=\"col2\"><a href=\"downl/"
            ++ (name
                ++ (codes
                      "\">downl</a></td> <td class=\"col3\"><a href=\"#\" onclick=\"return confirmDelete('"
                    ++ (name ++ codes "');\">remov</a></td></tr>\n")))))

unfoldable pub rows : List Bytes → Bytes
rows [] = []
rows (name ∷ names) = row name ++ rows names

unfoldable pub all_lines : List Bytes → Bytes
all_lines [] = []
all_lines (line ∷ lines) = line ++ (10 ∷ all_lines lines)

-- The lines before the label, then `middle`, then the lines behind it. Without a label the loop
-- that looks for it goes on past the end of the file for ever.
unfoldable pub page_around : Bytes → List Bytes → Result Bytes
page_around middle [] = fault hangs
page_around middle (line ∷ lines) =
    let rest = page_around middle lines in
    if equal line label
    then ok (middle ++ all_lines lines)
    else (rest >>= λ page. ok (line ++ (10 ∷ page)))

-- `getFileListPage`: the page, behind what the text held before.
unfoldable pub file_list_page : Bytes → Option (List Bytes) → List Bytes → Result Bytes
file_list_page html names template = do
  files ← get_file_vec names
  page ← page_around (rows files) template
  ok (html ++ page)
