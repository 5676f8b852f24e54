-- ===== src/Connectors/Boards/Every.antt =====
-- The connectors by name, and what the mapping of each of them gives.
use recru_flow.Base.{ℕ, String, Option, none, some, List, [], ◌∷◌}
use recru_flow.Base.Int.{ℤ}
use recru_flow.Data.Json.{Value, Fields, get, as_dict}
use recru_flow.Ingestion.Persist.{Host}
use recru_flow.Connectors.Boards.Mapped.{
  IsMapped, mapped_with-IsMapped, mapped-IsMapped, either-text, text-ne-null, seniority_levels,
  MapsOf,
}
use recru_flow.Connectors.Pracuj.Mapping as Pracuj
use recru_flow.Connectors.Boards.Justjoinit as Justjoinit
use recru_flow.Connectors.Boards.Nofluffjobs as Nofluffjobs
use recru_flow.Connectors.Boards.SolidJobs as SolidJobs
use recru_flow.Connectors.Boards.Remoteok as Remoteok
use recru_flow.Connectors.Boards.Remotive as Remotive
use recru_flow.Connectors.Boards.Bulldogjob as Bulldogjob
use recru_flow.Connectors.Boards.RocketJobs as RocketJobs
use recru_flow.Connectors.Boards.WeWorkRemotely as WeWorkRemotely

-- The functions of the standard library that the mappings call.
pub record Readers : Type 0 where
  pub from_timestamp : Value → ℕ
  pub isoformat_utc : String → Option String
  pub url_path : String → String
  pub ceiling_text : String → Option String
  pub int_of : String → Option ℤ
  pub pub_date : String → Option String

pub data BoardName : Type 0 where
  justjoinit : BoardName
  nofluffjobs : BoardName
  solid_jobs : BoardName
  remoteok : BoardName
  remotive : BoardName
  bulldogjob : BoardName
  rocket_jobs : BoardName
  we_work_remotely : BoardName
  pracuj : BoardName

-- The mapping of a connector; `none` is an exception.
unfoldable pub map_offer_of : Readers → Host → BoardName → ℕ → Fields → Option Fields
map_offer_of readers host justjoinit source_id raw = some (Justjoinit.map_offer host source_id raw)
map_offer_of readers host nofluffjobs source_id raw =
    some (Nofluffjobs.map_offer readers.from_timestamp host source_id raw)
map_offer_of readers host solid_jobs source_id raw = some (SolidJobs.map_offer host source_id raw)
map_offer_of readers host remoteok source_id raw = some (Remoteok.map_offer host source_id raw)
map_offer_of readers host remotive source_id raw =
    some (Remotive.map_offer readers.isoformat_utc host source_id raw)
map_offer_of readers host bulldogjob source_id raw = Bulldogjob.map_offer host source_id raw
map_offer_of readers host rocket_jobs source_id raw =
    some (RocketJobs.map_offer readers.url_path host source_id raw)
map_offer_of readers host we_work_remotely source_id raw = some (
    WeWorkRemotely.map_offer readers.ceiling_text readers.int_of readers.pub_date host source_id
      raw)
map_offer_of readers host pracuj source_id raw = some (Pracuj.map_offer host source_id raw)

module _ (readers : Readers) (host : Host) where
  map_job-IsMapped :
      (source_id : ℕ) (job : Fields) (parts : List String)
      → IsMapped source_id (Bulldogjob.map_job host source_id job parts)
  unfolding Bulldogjob.map_job
  map_job-IsMapped source_id job parts =
      mapped-IsMapped source_id _ (either-text (get "position" job))
        (either-text (get "name" (as_dict (get "company" job)))) (seniority_levels _ _)

  map_page-MapsOf :
      (source_id : ℕ) (props : Fields) → MapsOf source_id (Bulldogjob.map_page host source_id props)
  unfolding Bulldogjob.map_page
  map_page-MapsOf source_id props =
      let job = as_dict (get "job" (as_dict (get "data" props))) in
      of_parts job (Bulldogjob.join_parts (get "offer" job ∷ get "requirements" job ∷ []))
    where
      of_parts :
          (job : Fields) (parts : Option (List String))
          → MapsOf source_id (elim parts [
            | none ↦ none
            | some ps ↦ some (Bulldogjob.map_job host source_id job ps)
          ])
      of_parts job none = tt
      of_parts job (some ps) = map_job-IsMapped source_id job ps

  bulldogjob-MapsOf :
      (source_id : ℕ) (raw : Fields) → MapsOf source_id (Bulldogjob.map_offer host source_id raw)
  unfolding Bulldogjob.map_offer
  bulldogjob-MapsOf source_id raw = of_props (Bulldogjob.dict_under "props" raw)
    where
      of_page :
          (page : Option Fields)
          → MapsOf source_id
              (elim page [ none ↦ none | some p ↦ Bulldogjob.map_page host source_id p ])
      of_page none = tt
      of_page (some p) = map_page-MapsOf source_id p

      of_props :
          (props : Option Fields)
          → MapsOf source_id (elim props [
            | none ↦ none
            | some p ↦ elim (Bulldogjob.dict_under "pageProps" p) [
              | none ↦ none
              | some q ↦ Bulldogjob.map_page host source_id q
            ]
          ])
      of_props none = tt
      of_props (some p) = of_page (Bulldogjob.dict_under "pageProps" p)

  -- Whatever the raw offer is, the mapping of every connector that returns names the source that it was
  -- called for, never gives a null title or company, gives a Boolean for remote work, a text for the
  -- currency, and for the seniority null or a list of canonical levels.
  pub map_offer_of-IsMapped :
      (board : BoardName) (source_id : ℕ) (raw : Fields)
      → MapsOf source_id (map_offer_of readers host board source_id raw)
  unfolding map_offer_of Justjoinit.map_offer Nofluffjobs.map_offer SolidJobs.map_offer
      Remoteok.map_offer Remotive.map_offer RocketJobs.map_offer WeWorkRemotely.map_offer
      Pracuj.map_offer
  map_offer_of-IsMapped justjoinit source_id raw =
      mapped-IsMapped source_id _ (either-text (get "title" raw))
        (either-text (get "companyName" raw)) (seniority_levels _ _)
  map_offer_of-IsMapped nofluffjobs source_id raw =
      mapped-IsMapped source_id _ (either-text (get "title" raw)) (either-text (get "name" raw))
        (seniority_levels _ _)
  map_offer_of-IsMapped solid_jobs source_id raw =
      mapped-IsMapped source_id _ (either-text (get "title" raw)) (either-text (get "company" raw))
        (seniority_levels _ _)
  map_offer_of-IsMapped rocket_jobs source_id raw =
      mapped-IsMapped source_id _ (either-text (get "title" raw))
        (either-text (get "name" (as_dict (get "hiringOrganization" raw)))) (seniority_levels _ _)
  map_offer_of-IsMapped pracuj source_id raw =
      mapped-IsMapped source_id _ (either-text (get "jobTitle" (as_dict (get "attributes" raw))))
        (either-text (get "displayEmployerName" (as_dict (get "attributes" raw))))
        (seniority_levels _ _)
  map_offer_of-IsMapped remoteok source_id raw =
      mapped_with-IsMapped source_id _ _ (either-text (get "position" raw))
        (either-text (get "company" raw)) tt
  map_offer_of-IsMapped remotive source_id raw =
      mapped_with-IsMapped source_id _ _ (either-text (get "title" raw))
        (either-text (get "company_name" raw)) tt
  map_offer_of-IsMapped we_work_remotely source_id raw =
      mapped_with-IsMapped source_id _ _ (text-ne-null _) (text-ne-null _) tt
  map_offer_of-IsMapped bulldogjob source_id raw = bulldogjob-MapsOf source_id raw
