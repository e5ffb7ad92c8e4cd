-- ===== src/Notifier.antt =====
-- The notifier: `NotifierService` of services/notifier/src/notifier_service.cpp, and the digest as
-- Markdown in files, services/notifier/src/digest_writer.cpp. The file system is a map from paths to
-- contents, and what goes wrong on a write is an argument.
pub mod Token
pub mod Names
pub mod Atomic
pub mod Delivery
pub mod Run
mod Tests
use habr_parser.Base.{
  ℕ, suc, List, [], ◌∷◌, ◌++◌, Bool, true, false, not, ◌&&◌, ◌||◌, Option, none, some, ℤ, pos,
  negsuc, Bytes, utf8, written, to_string, is_empty, length, leb, ◌==◌, bytes_eq, if◌then◌else◌,
}
use Prim.Native.String.{String}
use habr_parser.Double.{Double}
use habr_parser.Json.{Json}
use habr_parser.Messages.{
  DigestArticle, DigestReadyMessage, digest_ready_exchange, digest_notifier_queue,
}
use habr_parser.Codec.{decode_digest}
use habr_parser.Config.{NotifierConfig}
use habr_parser.Amqp.{Service, Ack, declare_fanout_exchange, declare_queue, bind_queue, consume}

abbrev pub is_safe : ℕ → Bool
is_safe ch =
    (leb b'a' ch && leb ch b'z')
    || (leb b'A' ch && leb ch b'Z')
    || (leb b'0' ch && leb ch b'9')
    || (ch == b'-')
    || (ch == b'_')

pub safe_bytes : Bytes → Bytes
safe_bytes [] = []
safe_bytes (ch ∷ value) = (if is_safe ch then ch else b'-') ∷ safe_bytes value

-- `ToFileNameToken`
pub to_file_name_token : Bytes → Bytes
to_file_name_token value =
    let token = safe_bytes value in if is_empty token then utf8 "digest" else token

-- The hubs behind the first, each with the comma before it.
abbrev more_hubs : List Bytes → Bytes
more_hubs [] = []
more_hubs (hub ∷ hubs) = utf8 ", " ++ hub ++ more_hubs hubs

-- `JoinHubs`
pub join_hubs : List Bytes → Bytes
join_hubs [] = []
join_hubs (hub ∷ hubs) = hub ++ more_hubs hubs

-- What `<<` prints of an int64_t.
pub show_ℤ : ℤ → Bytes
show_ℤ (pos n) = to_string n
show_ℤ (negsuc n) = b'-' ∷ to_string (suc n)

abbrev field_line : String → Bytes → Bytes
field_line name value = written (utf8 "   - " ∷ utf8 name ∷ utf8 ": " ∷ value ∷ utf8 "\n" ∷ [])

module _ {F : Type 0} (fl : Double F) where
  pub render_item : ℕ → DigestArticle F → Bytes
  render_item position article = written (
      to_string position
      ∷ utf8 ". **["
      ∷ article.title
      ∷ utf8 "]("
      ∷ article.url
      ∷ utf8 ")**\n"
      ∷ (if is_empty article.author then [] else field_line "author" article.author)
      ∷ (if is_empty article.hubs then [] else field_line "hubs" (join_hubs article.hubs))
      ∷ (if is_empty article.published_at then [] else field_line "published" article.published_at)
      ∷ utf8 "   - rating "
      ∷ show_ℤ article.votes
      ∷ utf8 " · views "
      ∷ show_ℤ article.views
      ∷ utf8 " · bookmarks "
      ∷ show_ℤ article.bookmarks
      ∷ utf8 " · comments "
      ∷ show_ℤ article.comments
      ∷ utf8 "\n"
      ∷ utf8 "   - score "
      ∷ fl.print1 article.score
      ∷ utf8 "\n\n"
      ∷ [])

  pub render_items : ℕ → List (DigestArticle F) → Bytes
  render_items position [] = []
  render_items position (article ∷ articles) =
      render_item position article ++ render_items (suc position) articles

  -- `RenderDigestMarkdown`
  pub render_digest_markdown : DigestReadyMessage F → Bytes
  render_digest_markdown digest = written (
      utf8 "# Habr digest — "
      ∷ digest.generated_at
      ∷ utf8 "\n\n"
      ∷ utf8 "Top "
      ∷ to_string (length digest.articles)
      ∷ utf8 " of the last "
      ∷ to_string digest.period_hours
      ∷ utf8 " hours. _trace_id: "
      ∷ digest.trace_id
      ∷ utf8 "_\n\n"
      ∷ render_items 1 digest.articles
      ∷ [])

-- The contents by path.
abbrev pub Files : Type 0
Files = Bytes → Option Bytes

abbrev pub set_file : Bytes → Option Bytes → Files → Files
set_file path content files q = if bytes_eq q path then content else files q

-- What the operating system does to one call of `WriteFileAtomically`.
pub record Disk : Type 0 where
  pub opens : Bool
  -- what reaches the file where the stream reports that the write failed
  pub torn : Option Bytes
  -- what has reached the file where only closing it fails, which the stream's destructor hides
  pub lost : Option Bytes
  pub renames : Bool
  pub removes : Bool

abbrev pub on_disk : Bytes → Option Bytes → Bytes
on_disk content none = content
on_disk content (some kept) = kept

abbrev pub temporary_of : Bytes → Bytes
temporary_of path = path ++ utf8 ".tmp"

-- The rename, and the removal of the temporary file where it fails.
pub rename_temporary : Disk → Bytes → Files → Files × Bool
rename_temporary disk path files =
    let gone = set_file (temporary_of path) none files in
    if disk.renames
    then (set_file path (files (temporary_of path)) gone, true)
    else (if disk.removes then gone else files, false)

abbrev pub write_opened : Disk → Bytes → Bytes → Option Bytes → Files → Files × Bool
write_opened disk path content (some kept) files =
    (set_file (temporary_of path) (some kept) files, false)
write_opened disk path content none files =
    rename_temporary disk path
      (set_file (temporary_of path) (some (on_disk content disk.lost)) files)

-- `WriteFileAtomically`; `false` where it throws.
pub write_file_atomically : Disk → Bytes → Bytes → Files → Files × Bool
write_file_atomically disk path content files =
    if disk.opens then write_opened disk path content disk.torn files else (files, false)

-- `directory / name`
pub join_path : Bytes → Bytes → Bytes
join_path [] name = name
join_path (c ∷ []) name = if c == b'/' then c ∷ name else c ∷ b'/' ∷ name
join_path (c ∷ d ∷ directory) name = c ∷ join_path (d ∷ directory) name

unfoldable pub on_channel_ready : NotifierConfig → Service → Service
on_channel_ready config s = consume digest_notifier_queue config.prefetch (
    bind_queue digest_notifier_queue digest_ready_exchange
      (declare_queue digest_notifier_queue (declare_fanout_exchange digest_ready_exchange s)))

abbrev pub digest_path : NotifierConfig → Bytes → Bytes
digest_path config digest_id =
    join_path config.output_dir
      (written (utf8 "digest-" ∷ to_file_name_token digest_id ∷ utf8 ".md" ∷ []))

abbrev pub latest_path : NotifierConfig → Bytes
latest_path config = join_path config.output_dir (utf8 "latest.md")

-- The second write, unless the first threw.
abbrev pub then_latest : Disk → Bytes → Bytes → Files × Bool → Files × Option Ack
then_latest disk latest markdown (files, false) = (files, some Ack.requeue)
then_latest disk latest markdown (files, true) =
    let (files', done) = write_file_atomically disk latest markdown files in
    (files', some (if done then Ack.ack else Ack.requeue))

module _ {F : Type 0} (fl : Double F) (j : Json F) (config : NotifierConfig)
    (first second : Disk) where
  abbrev pub write_digest : Option (DigestReadyMessage F) → Files → Files × Option Ack
  write_digest none files = (files, some Ack.reject)
  write_digest (some digest) files =
      let markdown = render_digest_markdown fl digest in
      then_latest second (latest_path config) markdown
        (write_file_atomically first (digest_path config digest.digest_id) markdown files)

  -- `HandleDigestReady`
  pub handle_digest_ready : Bytes → Files → Files × Option Ack
  handle_digest_ready payload files = write_digest (decode_digest j payload) files
