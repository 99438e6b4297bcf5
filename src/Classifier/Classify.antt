-- ===== src/Classifier/Classify.antt =====
-- src/idr/classifier/request_classifier.py: `RequestClassifier.classify`. The patterns of
-- `parse_user_agent`, the random texts and the time are parameters.
use thenexusengine.Common.{String, none, some, if◌then◌else◌}
use mathlib.Core.Option
use thenexusengine.Common.Text.{upper}
use thenexusengine.Privacy.Tcf.{Decoder}
use thenexusengine.Privacy.Signals
use thenexusengine.Privacy.Signals.{BidRequest, from_openrtb}
use thenexusengine.Request.{ClassifiedRequest, Timestamp, post_init}
use thenexusengine.Classifier.Ortb.{
  OrtbRequest, Geo, no_geo, has_geo, Device, no_device, has_source, no_source, User, no_user, Regs,
  no_regs,
}
use thenexusengine.Classifier.Extract.{
  ParsedUserAgent, nonempty, get_first_impression, determine_format, extract_sizes,
  determine_position, classify_device, extract_os, extract_connection_type, extract_ad_unit_id,
  extract_site_id, extract_publisher_id, extract_domain, extract_page_type, extract_categories,
}
use thenexusengine.Classifier.Ids.{extract_user_ids, check_consent, extract_consent_string}

-- The keys of the request that `ConsentSignals.from_openrtb` reads.
abbrev pub signal_geo : Geo → Signals.Geo
signal_geo g = record { country = g.country; region = g.region }

abbrev pub signal_regs : Regs → Signals.Regs
signal_regs r = record {
  ext = some (record { gdpr = r.gdpr; us_privacy = r.us_privacy });
  gpp = r.gpp;
  coppa = r.coppa;
}

abbrev pub signal_user : User → Signals.User
signal_user u = record { ext = some (record { consent = u.consent }) }

abbrev pub signal_device : Device → Signals.Device
signal_device d = record { geo = Option.map signal_geo d.geo }

abbrev pub bid_request : OrtbRequest → BidRequest
bid_request r = record {
  regs = Option.map signal_regs r.regs;
  user = Option.map signal_user r.user;
  device = Option.map signal_device r.device;
}

-- The random parts of the identifiers that the request does not have.
pub record Randoms : Type 0 where
  pub ad_unit : String
  pub site : String
  pub publisher : String

pub record RequestClassifier : Type 0 where
  pub default_floor_currency : String

module _ (decoder : Decoder) (parse_user_agent : String → ParsedUserAgent) where
  unfoldable pub classify :
      RequestClassifier → Randoms → Timestamp → OrtbRequest → ClassifiedRequest
  classify self randoms now request =
      let imp = get_first_impression request.imp in
      let device = Option.get_or request.device no_device in
      let site = Option.get_or request.site no_source in
      let app = Option.get_or request.app no_source in
      let user = Option.get_or request.user no_user in
      let regs = Option.get_or request.regs no_regs in
      let publisher_source = if has_source site then site else app in
      let parsed_ua = parse_user_agent (Option.get_or device.ua "") in
      let device_geo = Option.get_or device.geo no_geo in
      let geo = if has_geo device_geo then device_geo else Option.get_or request.geo no_geo in
      post_init (record {
        impression_id = Option.get_or imp.id "";
        ad_unit_id = extract_ad_unit_id randoms.ad_unit imp;
        ad_format = determine_format imp;
        ad_sizes = extract_sizes imp;
        position = determine_position imp;
        device_type = classify_device device parsed_ua;
        os = extract_os device parsed_ua;
        browser = parsed_ua.browser;
        connection_type = extract_connection_type device;
        country = upper (Option.get_or geo.country "unknown");
        region = Option.get_or geo.region "";
        dma = elim (nonempty geo.metro) [ some metro ↦ some metro | none ↦ geo.dma ];
        publisher_id = extract_publisher_id randoms.publisher publisher_source;
        site_id = extract_site_id randoms.site publisher_source;
        domain = extract_domain site app;
        page_type = extract_page_type site;
        categories = extract_categories site app;
        user_ids = extract_user_ids user;
        has_consent = check_consent regs user;
        consent_string = extract_consent_string user regs;
        consent_signals = some (from_openrtb decoder (bid_request request));
        timestamp = now;
        hour_of_day = 0;
        day_of_week = 0;
        floor_price = imp.bidfloor;
        floor_currency = Option.get_or imp.bidfloorcur self.default_floor_currency;
      })
