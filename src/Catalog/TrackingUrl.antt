-- ===== src/Catalog/TrackingUrl.antt =====
-- catalog-tracking-url.util.ts. `encode` is JavaScript's `encodeURIComponent`.
use micro_saas_api.Base.{◌||◌, [], ◌∷◌, ◌++◌, Option, none, some, if◌then◌else◌}
use micro_saas_api.Text.{Text, codes, trim, to_lower, includes, nonempty}

abbrev text_or_empty : Option Text → Text
text_or_empty none = []
text_or_empty (some s) = s

-- The chain of `if (courier.includes(…))`, for a courier that is not empty.
courier_page : (Text → Text) → Text → Text → Text → Text
courier_page encode courier tracking typed =
    let has = λ (name : Text). includes courier name in
    let enc = encode tracking in
    if has (codes "delhivery")
    then codes "https://www.delhivery.com/track/package/" ++ enc
    else if has (codes "bluedart") || has (codes "blue dart")
    then codes "https://www.bluedart.com/tracking/" ++ enc
    else if has (codes "dtdc")
    then codes "https://www.dtdc.in/tracking/tracking_results.asp?Ttype=awb_no&strCnno=" ++ enc
    else if has (codes "india post") || has (codes "speed post") || has (codes "indiapost")
    then codes "https://www.indiapost.gov.in/_layouts/15/dop.portal.tracking/trackconsignment.aspx"
    else if has (codes "shiprocket")
    then codes "https://shiprocket.co/tracking/" ++ enc
    else if has (codes "ekart") || has (codes "flipkart")
    then codes "https://www.flipkart.com/support/track-order?trackingId=" ++ enc
    else if has (codes "ecom") || has (codes "ecomexpress")
    then codes "https://ecomexpress.in/tracking/?awb_field=" ++ enc
    else if has (codes "xpressbees") || has (codes "expressbees")
    then codes "https://www.xpressbees.com/shipment/tracking?awbNo=" ++ enc
    else codes "https://www.google.com/search?q=" ++ encode (typed ++ codes " track " ++ tracking)

track_page : (Text → Text) → Text → Text → Text → Text
unfolding courier_page
track_page encode [] tracking typed =
    codes "https://www.google.com/search?q=" ++ encode (codes "track shipment " ++ tracking)
track_page encode (c ∷ courier) tracking typed = courier_page encode (c ∷ courier) tracking typed

unfoldable pub build_courier_tracking_url : (Text → Text) → Option Text → Option Text → Option Text
unfolding track_page
build_courier_tracking_url encode courier_name tracking_number =
    elim (nonempty (trim (text_or_empty tracking_number))) [
      | none ↦ none
      | some tracking ↦ some (
          track_page encode (to_lower (trim (text_or_empty courier_name))) tracking
            (text_or_empty courier_name))
    ]
