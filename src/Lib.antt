-- ===== src/Lib.antt =====
-- PhotoPrism: the rules of the photo library and its background workers.
--
-- Files, with the code that they model (paths from the repository's root):
--   Prelude          shared names, Boolean tests on the native numbers, lists, texts (as lists of code
--                    points) and integers.
--   Clock            the part of Go's time.Time that the program uses, with the proleptic calendar.
--   Mutex            internal/mutex: `Busy` with `Start`, `Stop`, `Cancel`; Mutex/System is the
--                    transition system of the goroutines that share one flag.
--   Txt              pkg/txt: `Clip`, `Title`, `Words`, `Keywords`, `UniqueWords`, `UniqueKeywords`.
--   Sorting          the contract of Go's package sort, with insertion sort as an instance.
--   Classify         internal/classify: `Labels.Less`, `AppendLabel`, `Keywords`, `Title`.
--   Entity           internal/entity: photos with places and locations. `Photo.SetTitle` is `set_title`,
--                    `SetTakenAt` is `set_taken_at`, `UpdateTitle` is `update_title`, `QualityScore` is
--                    `quality_score`, `SetFavorite` is `set_favorite`.
--                    Entity/Photo/Save is `Save` and `Maintain`, Entity/Photo/Locate is photo_location.go,
--                    Entity/Photo/Edit is `SavePhotoForm`, Entity/Keyword is `IndexKeywords` with its tables,
--                    Entity/Label is label.go, photo_label.go and `AddLabels`, Entity/Geo is `Location.Find`
--                    with the tables of places, locations and countries.
--   Form             internal/form: `Serialize` is `serialize`, `ParseQueryString` is `parse_query_string` with
--                    one character at a time in `scan_char`; the forms of searches are Form/Searches.
--   Fs               pkg/fs: the type of a file by its extension; Fs/Ignore is ignore.go.
--   Workers          internal/workers: `Sync.Start` is `visit` for one account and `visit_all` for the
--                    loop; `Sync.refresh` is `refresh_account`; Workers/SyncTable holds the rows of
--                    internal/entity/file_sync.go, Workers/Account those of internal/entity/account.go.
--                    Workers/Download is sync_download.go, Workers/Upload is sync_upload.go, Workers/Share
--                    is share.go.
--   Library          internal/photoprism: the purge of files that are gone and, in Library/Purge/Photos, of
--                    photos without files, `Purge.Start`; Library/Import is
--                    `DestinationFilename`, the loops of `ImportWorker` over the files of the jobs and the end
--                    of `Import.Start`, which removes hidden files, as `start_import`; Library/Walk
--                    is `SkipWalk` of pkg/fs/walk.go and the callback of `Import.Start`.
--                    Library/Index is `Index.MediaFile`: `begin` is its queries, `prepare` what it changes
--                    in memory, `write_all` its writes, with Library/Index/Records for the rows,
--                    Library/Index/Own for the row and the photo of a media file, and
--                    Library/Index/Classify is `classifyImage`.
--   Colors           pkg/colors: colors and their hexadecimal digits; Colors/LightMap is `LightMap.Diff`,
--                    Colors/Perception the loop of `MediaFile.Colors`.
--   Session          internal/session: `Create` is `create_session`, `New` is `new_session`; go-cache and
--                    encoding/json are interfaces with laws, and data that went through the file may change
--                    its types.
--   Rnd              pkg/rnd: `Token`, `PPID`, `IsUID`.
--
-- How the parts meet: the sync worker runs under a flag of Mutex, one round at a time, and reads file
-- types from Fs. The photo rules use the titles of Classify and the text helpers of Txt. A save of a photo
-- goes through its labels (Entity/Label), its title, its keywords and their index (Entity/Keyword), and an
-- edit also through its place (Entity/Geo). The walk of an import asks the ignore list of Fs and hands
-- jobs to the loop that moves files. The indexer meets the most: it sets a photo through the setters, the
-- location, the labels, the title, the keywords and their index, stores colors and light maps of Colors,
-- and links the rows of downloads that Workers writes.
--
-- State is passed explicitly. What the database, the WebDAV client, the clock and a cancellation answer
-- enters as arguments, so that a theorem speaks of all answers. All recursion is structural but for
-- the pages of the purge, the search for a free name and the digits of a number, which run on fuel. One page more than the table
-- has rows behind the offset is enough, since a page that is not empty moves the offset by 500; and one
-- name more than there are files is, since the names differ; and 36^13 is above 2^64.
-- Times before the year 1 are not represented; float32 coordinates are bit patterns; integers that the
-- code only counts up are not bounded by 2^63; the counts of colors wrap at 2^16 and light map numbers at 2^32. `unicode`, `sort` and the generated tables (stop words,
-- countries) are parameters. Not modelled: the texts of database queries, the web API, the walk of the indexer, the
-- conversion of files, the YAML files that are written, and everything that only reads or writes files.
pub mod Prelude
pub mod Mutex
pub mod Clock
pub mod Txt
pub mod Sorting
pub mod Classify
pub mod Entity
pub mod Form
pub mod Fs
pub mod Workers
pub mod Library
pub mod Session
pub mod Rnd
pub mod Colors
